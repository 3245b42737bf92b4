-- ===== src/Stage2/Chain.antt =====
-- src/llm_inference_systems/stage2_contracts.py: RawLogRecord and RequestIdentityChain, with the
-- checks that their validators make.
use llm_inference_systems.Prelude.{
  ℕ, Bool, true, false, ◌&&◌, ◌||◌, not, Option, none, some, List, [], ◌∷◌, ◌++◌, ltb, leb, ◌==◌,
  if◌then◌else◌, codes, length, all, list_eq, pairs_hold, occurs_in, distinct, ◌≡◌, arith,
}
use llm_inference_systems.Sse.Codec.{Text}

pub record RawLogRecord : Type 0 where
  pub source_stream_id : Text
  pub record_ordinal : ℕ
  pub byte_start : ℕ
  pub byte_end : ℕ
  pub observation_offset_ns : ℕ
  pub raw_record : Text
  pub raw_record_sha256 : Text

pub record RequestIdentityChain : Type 0 where
  pub external_base_id : Text
  pub response_body_id : Text
  pub serving_item_id : Text
  pub internal_engine_id : Text
  pub request_received_log : RawLogRecord
  pub request_add_log : RawLogRecord
  pub external_abort_log : Option RawLogRecord
  pub internal_abort_log : Option RawLogRecord

-- f"cmpl-{base}" and f"cmpl-{base}-0"
abbrev pub response_id : Text → Text
response_id base = codes "cmpl-" ++ base

abbrev pub serving_id : Text → Text
serving_id base = response_id base ++ codes "-0"

abbrev pub is_hex_digit : ℕ → Bool
is_hex_digit c = leb b'0' c && leb c b'9' || leb b'a' c && leb c b'f'

-- The rest of `text` after `prefix`, and `none` where it does not start with it.
unfoldable pub remove_prefix : Text → Text → Option Text
remove_prefix [] text = some text
remove_prefix (c ∷ prefix) [] = none
remove_prefix (c ∷ prefix) (x ∷ text) = if c == x then remove_prefix prefix text else none

-- startswith(prefix), and eight lowercase hexadecimal digits after it.
unfoldable pub has_hex_suffix : Text → Text → Bool
has_hex_suffix prefix text = elim (remove_prefix prefix text) [
  | none ↦ false
  | some suffix ↦ length suffix == 8 && all is_hex_digit suffix
]

abbrev pub present : Option RawLogRecord → List RawLogRecord
present none = []
present (some r) = r ∷ []

-- The order that the engine is pinned to: the internal abort comes before the external one.
abbrev pub chain_records : RequestIdentityChain → List RawLogRecord
chain_records c =
    c.request_received_log ∷ c.request_add_log ∷ present c.internal_abort_log
    ++ present c.external_abort_log

abbrev pub same_record : RawLogRecord → RawLogRecord → Bool
same_record a b =
    list_eq a.source_stream_id b.source_stream_id && a.record_ordinal == b.record_ordinal

-- The record before another, in every respect that `validate_chain` compares.
abbrev pub precedes : RawLogRecord → RawLogRecord → Bool
precedes a b =
    leb a.record_ordinal b.record_ordinal
    && (leb a.observation_offset_ns b.observation_offset_ns
        && (leb a.byte_start b.byte_start && not (ltb b.byte_start a.byte_end)))

abbrev fragment_in : Text → Option RawLogRecord → Bool
fragment_in fragment none = true
fragment_in fragment (some r) = occurs_in fragment r.raw_record

abbrev pub same_stream : RawLogRecord → RawLogRecord → Bool
same_stream a b = list_eq a.source_stream_id b.source_stream_id

abbrev both_or_neither : Option RawLogRecord → Option RawLogRecord → Bool
both_or_neither none none = true
both_or_neither (some a) (some b) = true
both_or_neither _ _ = false

-- `RequestIdentityChain.validate_chain`.
unfoldable pub chain_is_valid : RequestIdentityChain → Bool
chain_is_valid c =
    list_eq c.response_body_id (response_id c.external_base_id)
    && (list_eq c.serving_item_id (serving_id c.external_base_id)
        && (has_hex_suffix (serving_id c.external_base_id ++ codes "-") c.internal_engine_id
            && (distinct same_record (chain_records c)
                && (all (same_stream c.request_received_log) (chain_records c)
                    && (both_or_neither c.external_abort_log c.internal_abort_log
                        && (pairs_hold precedes (chain_records c)
                            && (occurs_in
                                  (codes "Received request "
                                    ++ serving_id c.external_base_id
                                    ++ codes ":")
                                  c.request_received_log.raw_record
                                && (occurs_in
                                      (codes "Added request " ++ c.internal_engine_id ++ codes ".")
                                      c.request_add_log.raw_record
                                    && (fragment_in
                                          (codes "Request "
                                            ++ serving_id c.external_base_id
                                            ++ codes " aborted.")
                                          c.external_abort_log
                                        && fragment_in
                                            (codes "Aborted request(s) "
                                              ++ c.internal_engine_id
                                              ++ codes ".")
                                            c.internal_abort_log)))))))))

third_of : (a b c d : Bool) → (a && (b && (c && d))) ≡ true → c ≡ true
third_of a b c d h = ground arith

-- A valid chain has an engine id that extends its serving item id.
pub chain_is_valid-hex :
    (c : RequestIdentityChain)
    → chain_is_valid c ≡ true
    → has_hex_suffix (serving_id c.external_base_id ++ codes "-") c.internal_engine_id ≡ true
unfolding chain_is_valid
chain_is_valid-hex c h = third_of _ _ _ _ h
