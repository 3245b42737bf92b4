-- ===== src/RequestLogs/Retain.antt =====
-- src/llm_inference_systems/stage2_protocol.py: retain_raw_log_records and retain_raw_log_capture, and
-- src/llm_inference_systems/stage2_contracts.py: the validators of RawLogRecord and RawLogCapture.
-- hashlib, base64, str.encode, which refuses a lone surrogate, and the identity hash are parameters.
pub mod Returns
use llm_inference_systems.Prelude.{
  ℕ, suc, ◌+◌, ◌-◌, Bool, true, false, ◌&&◌, ◌||◌, not, Option, none, some, List, [], ◌∷◌, ◌++◌,
  map, ltb, ◌==◌, if◌then◌else◌, length, all, list_eq, Result, ok, err, pairs_hold, is_sorted,
  is_some, leb,
}
use llm_inference_systems.Sse.Codec.{Text}
use llm_inference_systems.Stage2.Chain.{RawLogRecord}

-- What the code calls of Python's libraries, and the identity of a capture, without its field.
pub record Codecs : Type 0 where
  pub encode : Text → Option (List ℕ)
  pub sha256_hex : List ℕ → Text
  pub b64encode : List ℕ → Text
  pub b64decode : Text → Option (List ℕ)
  pub identity : Text → Text → ℕ → Text → List RawLogRecord → Text

pub record RawLogCapture : Type 0 where
  pub source_stream_id : Text
  pub exact_bytes_base64 : Text
  pub decoded_byte_count : ℕ
  pub raw_bytes_sha256 : Text
  pub records : List RawLogRecord
  pub identity_sha256 : Text

pub data RetainError : Type 0 where
  offsets_differ not_encodable invalid_record invalid_capture : RetainError

-- b"\n".join(parts)
unfoldable pub join_bytes : List (List ℕ) → List ℕ
join_bytes [] = []
join_bytes (part ∷ []) = part
join_bytes (part ∷ next ∷ rest) = part ++ 10 ∷ join_bytes (next ∷ rest)

-- tuple(range(n)) against the ordinals, from `n` on.
unfoldable pub ordinals_from : ℕ → List RawLogRecord → Bool
ordinals_from n [] = true
ordinals_from n (r ∷ records) = r.record_ordinal == n && ordinals_from (suc n) records

abbrev pub adjacent : RawLogRecord → RawLogRecord → Bool
adjacent left right = right.byte_start == left.byte_end + 1

unfoldable pub ends_at : ℕ → List RawLogRecord → Bool
ends_at size [] = false
ends_at size (r ∷ []) = r.byte_end == size
ends_at size (r ∷ s ∷ rest) = ends_at size (s ∷ rest)

abbrev pub starts_at_0 : List RawLogRecord → Bool
starts_at_0 [] = false
starts_at_0 (r ∷ rest) = r.byte_start == 0

-- The offset of each line: the given one, or `first` plus its ordinal.
abbrev pub counted : ℕ → List Text → List ℕ
counted first [] = []
counted first (line ∷ lines) = first ∷ counted (suc first) lines

-- Identifier: 1 to 160 characters.
abbrev pub is_identifier : Text → Bool
is_identifier t = leb 1 (length t) && leb (length t) 160

module _ (K : Codecs) where
  abbrev pub is_encodable : Text → Bool
  is_encodable line = is_some (K.encode line)

  -- line.encode("utf-8") of a line that is encodable.
  abbrev pub bytes_of : Text → List ℕ
  bytes_of line = elim (K.encode line) [ none ↦ [] | some bytes ↦ bytes ]

  -- The source of a RawLogRecord, and `validate_raw_record`.
  unfoldable pub record_is_valid : RawLogRecord → Bool
  record_is_valid r =
      is_identifier r.source_stream_id
      && (is_encodable r.raw_record
          && (ltb r.byte_start r.byte_end
              && (r.byte_end - r.byte_start == length (bytes_of r.raw_record)
                  && list_eq r.raw_record_sha256 (K.sha256_hex (bytes_of r.raw_record)))))

  -- The long test of `validate_capture`, on the bytes that were decoded.
  unfoldable pub inventory_matches : RawLogCapture → List ℕ → Bool
  inventory_matches c exact =
      length exact == c.decoded_byte_count
      && (list_eq (K.sha256_hex exact) c.raw_bytes_sha256
          && (list_eq exact (join_bytes (map (λ r. bytes_of r.raw_record) c.records))
              && (all (λ r. list_eq r.source_stream_id c.source_stream_id) c.records
                  && (ordinals_from 0 c.records
                      && (starts_at_0 c.records
                          && (pairs_hold adjacent c.records
                              && ends_at (length exact) c.records))))))

  -- The source of a RawLogCapture, and `validate_capture`.
  unfoldable pub capture_is_valid : RawLogCapture → Bool
  capture_is_valid c = elim (K.b64decode c.exact_bytes_base64) [
    | none ↦ false
    | some exact ↦
        is_identifier c.source_stream_id
        && (list_eq (K.b64encode exact) c.exact_bytes_base64
            && (all (λ r. is_encodable r.raw_record) c.records
                && (inventory_matches c exact
                    && list_eq c.identity_sha256 (
                        K.identity c.source_stream_id c.exact_bytes_base64 c.decoded_byte_count
                          c.raw_bytes_sha256 c.records))))
  ]

  -- The record that the loop makes of one line.
  abbrev pub record_of : Text → ℕ → ℕ → ℕ → Text → RawLogRecord
  record_of source ordinal byte_offset observed line = record {
    source_stream_id = source;
    record_ordinal = ordinal;
    byte_start = byte_offset;
    byte_end = byte_offset + length (bytes_of line);
    observation_offset_ns = observed;
    raw_record = line;
    raw_record_sha256 = K.sha256_hex (bytes_of line);
  }

  -- The loop, with the offsets of the lines that are left; building a record runs its validator.
  unfoldable pub retain_from :
      Text → ℕ → ℕ → List Text → List ℕ → Result RetainError (List RawLogRecord)
  retain_from source ordinal byte_offset [] offsets = ok []
  retain_from source ordinal byte_offset (line ∷ lines) [] = err offsets_differ
  retain_from source ordinal byte_offset (line ∷ lines) (observed ∷ offsets) =
      let r = record_of source ordinal byte_offset observed line in
      let rest =
        retain_from source (suc ordinal) (byte_offset + length (bytes_of line) + 1) lines offsets in
      if not (is_encodable line)
      then err not_encodable
      else if record_is_valid r
      then elim rest [ err e ↦ err e | ok records ↦ ok (r ∷ records) ]
      else err invalid_record

  unfoldable pub retain_raw_log_records :
      List Text → Text → ℕ → Option (List ℕ) → Result RetainError (List RawLogRecord)
  retain_raw_log_records lines source first none =
      retain_from source 0 0 lines (counted first lines)
  retain_raw_log_records lines source first (some offsets) =
      if not (length offsets == length lines) || not (is_sorted offsets)
      then err offsets_differ
      else retain_from source 0 0 lines offsets

  -- The capture of the exact bytes and the records.
  abbrev pub capture_of : Text → List Text → List RawLogRecord → RawLogCapture
  capture_of source lines records =
      let exact = join_bytes (map bytes_of lines) in
      record {
        source_stream_id = source;
        exact_bytes_base64 = K.b64encode exact;
        decoded_byte_count = length exact;
        raw_bytes_sha256 = K.sha256_hex exact;
        records = records;
        identity_sha256 =
            K.identity source (K.b64encode exact) (length exact) (K.sha256_hex exact) records;
      }

  unfoldable pub retain_raw_log_capture :
      List Text → Text → ℕ → Option (List ℕ) → Result RetainError RawLogCapture
  retain_raw_log_capture lines source first offsets =
      elim (retain_raw_log_records lines source first offsets) [
        | err e ↦ err e
        | ok records ↦
            if capture_is_valid (capture_of source lines records)
            then ok (capture_of source lines records)
            else err invalid_capture
      ]
