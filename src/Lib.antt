-- ===== src/Lib.antt =====
-- llm-inference-systems measures an inference server: a client streams completions, reconciles what
-- it saw with the server's logs and metrics, and commits the evidence in bundles. This library models
-- the pure core of src/llm_inference_systems. The package validates a stream in layers: the SSE parser
-- cuts bytes into frames, the Stage 2 validator reads the frames' JSON and keeps the boundaries of the
-- request, and the contracts check the evidence that is built from it. The experiment control decides
-- whether a run may start, was clean and is reproduced.
--
-- Prelude: shared names, lists, results, actions that keep the object when they raise, integers.
-- Sse (sse.py): IncrementalSSEParser. The parser is the record Parser; feed, _parse_frame and finalize
--   are feed, parse_frame and finalize. Sse/Codec has the string and byte methods that they call,
--   Sse/Frames and Sse/Drain the lemmas, Sse/Chunks and Sse/Done the results.
-- Stage2/Json (stage2_protocol.py): decoded JSON and _object, _array, _token_ids, _metrics. Objects
--   keep every pair as written, so that the hook against duplicate keys can be stated.
-- Stage2/Chain, Stage2/Evidence (stage2_contracts.py): RequestIdentityChain, Stage2TimingRecord and
--   Stage2RequestEvidence, each validator a Boolean test. The arithmetic of doubles is in the
--   record Library.
-- Stage2/Stream (stage2_protocol.py): Stage2StreamValidator. Its fields are the record Validator, each
--   method an action; Close has close_transport and _evidence, Effects what a returned call tested
--   and wrote, Invariant and Sound the invariant, Closed, Succeeds and After the end of the transport.
-- Stage2/Capture (stage2_protocol.py): Stage2CancellationStreamCapture, in the same way.
-- Stage2/Prometheus (stage2_prometheus.py): select_exact_series, derive_counter_delta and
--   require_quiescent over snapshots whose samples have been parsed.
-- Control (stage2_control.py, stage2_runtime.py): Budget, Phases, Restarts, Aggregate, Memory,
--   Processes, and Runtime, the evidence of a repetition's control, which calls the others and
--   evaluate_cancellation.
-- RequestLogs (stage2_protocol.py, stage2_contracts.py): correlate_request_logs, its patterns as
--   matchers over code points, and Retain with retain_raw_log_records and retain_raw_log_capture.
-- Cancellation (stage2_control.py): CancellationProbe and evaluate_cancellation. Progression has the
--   helpers on counters, Checks and Verdict the early returns in their order, Contract the validator
--   of the result, Accepted what a probe that was accepted has shown.
-- Bundle (stage2_bundle.py): Stage2BundleBuilder, inspect_bundle_state and validate_committed_bundle.
--   The file system is the record World, with a staging and a final directory and the faults of the
--   operations to come; Paths has the relative paths, Builder the writes, Commit the commit with its
--   recovery, Validate the reading, Evidence, Closed, Refines and the children of Commit the
--   results. Refines has the life cycle of the directories.
-- Stage0 (metrics.py): the observations of a request's tokens and its metrics.
-- Stage1 (stage1_metrics.py): the client concurrency that lifecycle events show, and the metrics of a
--   request. There, and in Stage0, a quotient is kept as its numerator and denominator.
-- Comparison (comparison.py): check_compatibility and the report; the texts of the mismatching values
--   are left out.
--
-- json.loads, SHA-256 and the canonical identity of a log chain are the fields of the record Host,
-- which the theorems take as a parameter; so are, in its record Library, the SHA-256 of a text, which a
-- lone surrogate does not have, and the arithmetic of doubles, which the end of a stream assumes exact up
-- to 2 ^ 53; the frame clock that a caller injects is a function of the
-- number of the call. Other floating-point numbers are the parameter Floats. Errors are constructors;
-- their messages are not kept.
--
-- The loop of Sse.feed runs on fuel of the buffer's length. Each round takes two bytes off the buffer
-- at least, and drain-fuel of Sse/Drain shows that more fuel changes nothing.
--
-- UTF-8 and Base64, SHA-256, the scan for private material and the caller's reconstruction are
-- parameters of RequestLogs, Cancellation and Bundle. An operation of the file system, or a sync, either
-- fails before it has done anything or succeeds; a control file holds the record that it parses to. A
-- directory is there exactly if a file is below it, and making one does not fail.
--
-- Not modelled: network, subprocess and other file access, the command line and the scripts; the
-- canonical JSON writer; floating-point summaries; symbolic links; the parser of the Prometheus
-- exposition.
pub mod Prelude
pub mod Sse
pub mod Stage2
pub mod Control
pub mod Stage0
pub mod Stage1
pub mod Comparison
pub mod RequestLogs
pub mod Cancellation
pub mod Bundle
