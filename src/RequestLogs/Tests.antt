-- ===== src/RequestLogs/Tests.antt =====
-- src/llm_inference_systems/stage2_protocol.py: the log of a request that was cancelled, kept and
-- correlated.
use llm_inference_systems.Prelude.{
  ℕ, ◌≡◌, refl, Bool, true, false, ◌&&◌, ◌||◌, some, List, [], ◌∷◌, ◌++◌, leb, ◌==◌, codes, Result,
  ok, err,
}
use llm_inference_systems.Sse.Codec.{Text}
use llm_inference_systems.Stage2.Chain.{
  RawLogRecord, RequestIdentityChain, remove_prefix, has_hex_suffix, chain_is_valid,
}
use llm_inference_systems.RequestLogs.{
  generic_ids_from, matching, only_added, search_added, all_generic_ids, build_chain, finish,
  correlate_request_logs, cross_request,
}
use llm_inference_systems.RequestLogs.Sound.{IsCorrelated, correlate_request_logs-IsCorrelated}
use llm_inference_systems.RequestLogs.Retain.{
  Codecs, record_of, RawLogCapture, retain_raw_log_capture,
}
use llm_inference_systems.RequestLogs.Retain.Returns.{Retains, retain_raw_log_capture-Retains}

-- \w of ASCII text.
abbrev ascii_word : ℕ → Bool
ascii_word c = leb 48 c && leb c 57 || (leb 65 c && leb c 90 || (leb 97 c && leb c 122 || c == 95))

-- Codecs that change nothing.
abbrev plain : Codecs
plain = record {
  encode = λ t. some t;
  sha256_hex = λ b. b;
  b64encode = λ b. b;
  b64decode = λ t. some t;
  identity = λ source bytes n hash records. source;
}

abbrev is_ok {ℓ κ} : {E : Type κ} {A : Type ℓ} → Result E A → Bool
is_ok (ok a) = true
is_ok (err e) = false

abbrev received : Text
received = codes "INFO Received request cmpl-r1-0: prompt"

abbrev added : Text
added = codes "INFO Added request cmpl-r1-0-a123abcd."

abbrev internal_abort : Text
internal_abort = codes "INFO Aborted request(s) cmpl-r1-0-a123abcd."

abbrev external_abort : Text
external_abort = codes "INFO Request cmpl-r1-0 aborted."

abbrev stream : Text
stream = codes "server-1-raw-log"

abbrev log : List RawLogRecord
log =
    record_of plain stream 0 0 100 received
    ∷ record_of plain stream 1 40 200 added
    ∷ record_of plain stream 2 79 400 internal_abort
    ∷ record_of plain stream 3 123 500 external_abort
    ∷ []

abbrev chain : RequestIdentityChain
chain = record {
  external_base_id = codes "r1";
  response_body_id = codes "cmpl-r1";
  serving_item_id = codes "cmpl-r1-0";
  internal_engine_id = codes "cmpl-r1-0-a123abcd";
  request_received_log = record_of plain stream 0 0 100 received;
  request_add_log = record_of plain stream 1 40 200 added;
  external_abort_log = some (record_of plain stream 3 123 500 external_abort);
  internal_abort_log = some (record_of plain stream 2 79 400 internal_abort);
}

-- The greedy run goes on to the last -0, and the matches do not overlap.
generic_ids_run :
    generic_ids_from 0 (codes "cmpl-a-0-b-0 cmpl-b-01, cmpl--0, cmpl-0 cmpl-x-0-0123456")
    ≡ codes "cmpl-a-0-b-0" ∷ codes "cmpl-b-0" ∷ codes "cmpl-x-0-0" ∷ []
unfolding generic_ids_from remove_prefix
generic_ids_run = refl

correlate_run : correlate_request_logs ascii_word (codes "r1") log true ≡ ok chain
unfolding correlate_request_logs matching only_added search_added remove_prefix finish
    all_generic_ids generic_ids_from build_chain chain_is_valid has_hex_suffix
correlate_run = refl

correlate_other :
    correlate_request_logs ascii_word
      (codes "r1")
      (log ++ record_of plain stream 4 155 600 (codes "Added request cmpl-r2-0-a123abcd.") ∷ [])
      true
    ≡ err cross_request
unfolding correlate_request_logs matching only_added search_added remove_prefix finish
    all_generic_ids generic_ids_from
correlate_other = refl

-- A suffix that begins with 0: the greedy run takes in the serving item's own -0, and the id that it
-- leaves is neither of the two, so the log of a request on its own is refused.
correlate_zero_suffix :
    correlate_request_logs ascii_word
      (codes "r1")
      (record_of plain stream 0 0 100 received
        ∷ record_of plain stream 1 40 200 (codes "INFO Added request cmpl-r1-0-0123abcd.")
        ∷ [])
      false
    ≡ err cross_request
unfolding correlate_request_logs matching only_added search_added remove_prefix finish
    all_generic_ids generic_ids_from
correlate_zero_suffix = refl

correlate_completed :
    is_ok (
      correlate_request_logs ascii_word
        (codes "r1")
        (record_of plain stream 0 0 100 received ∷ record_of plain stream 1 40 200 added ∷ [])
        false)
    ≡ true
unfolding correlate_request_logs matching only_added search_added remove_prefix finish
    all_generic_ids generic_ids_from build_chain chain_is_valid has_hex_suffix
correlate_completed = refl

correlate_request_logs-IsCorrelated_example : IsCorrelated ascii_word (codes "r1") log true chain
correlate_request_logs-IsCorrelated_example =
    correlate_request_logs-IsCorrelated ascii_word (codes "r1") log true chain correlate_run

retain_raw_log_capture-Retains_example :
    (c : RawLogCapture) × (retain_raw_log_capture plain
        (received ∷ added ∷ [])
        stream
        0
        (some (5 ∷ 5 ∷ []))
      ≡ ok c)
    × Retains plain stream (received ∷ added ∷ []) (5 ∷ 5 ∷ []) c
retain_raw_log_capture-Retains_example =
    retain_raw_log_capture-Retains plain stream received (added ∷ []) 0 (some (5 ∷ 5 ∷ []))
      (λ b. refl) refl (refl, refl) refl
