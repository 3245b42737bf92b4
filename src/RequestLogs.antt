-- ===== src/RequestLogs.antt =====
-- src/llm_inference_systems/stage2_protocol.py: correlate_request_logs, which finds the log chain of
-- one request in the retained log. Its five patterns are matchers over code points; which characters
-- count as `\w` for `\b` is a parameter, for Python's re decides it.
pub mod Sound
pub mod Retain
mod Tests
use llm_inference_systems.Prelude.{
  ℕ, zero, suc, ◌-◌, Bool, true, false, ◌&&◌, ◌||◌, not, Option, none, some, List, [], ◌∷◌, ◌++◌,
  map, leb, ◌==◌, if◌then◌else◌, codes, length, all, select, concat, list_eq, Result, ok, err,
  is_prefix, mem,
}
use llm_inference_systems.Sse.Codec.{Text}
use llm_inference_systems.Stage2.Chain.{
  RawLogRecord, RequestIdentityChain, response_id, serving_id, is_hex_digit, remove_prefix,
  chain_is_valid,
}

pub data CorrelationError : Type 0 where
  received_ambiguous added_ambiguous cross_request : CorrelationError
  aborts_required unexpected_aborts chronology_differs : CorrelationError

-- The first `n` characters, if all are lowercase hexadecimal digits, and the rest.
abbrev take_hex : ℕ → Text → Option (Text × Text)
take_hex zero text = some ([], text)
take_hex (suc n) [] = none
take_hex (suc n) (c ∷ text) = elim (take_hex n text) [
  | none ↦ none
  | some p ↦ if is_hex_digit c then some (c ∷ p.0, p.1) else none
]

-- [A-Za-z0-9._-]
abbrev is_id_character : ℕ → Bool
is_id_character c =
    leb 65 c && leb c 90
    || (leb 97 c && leb c 122 || (leb 48 c && leb c 57 || (c == 46 || (c == 95 || c == 45))))

-- (?:-[0-9a-f]{8})?
abbrev optional_suffix : Text → Text
optional_suffix text = elim (remove_prefix (codes "-") text) [
  | none ↦ []
  | some rest ↦ elim (take_hex 8 rest) [ none ↦ [] | some p ↦ codes "-" ++ p.0 ]
]

-- -0(?:-[0-9a-f]{8})?
abbrev match_end : Text → Option Text
match_end text = elim (remove_prefix (codes "-0") text) [
  | none ↦ none
  | some rest ↦ some (codes "-0" ++ optional_suffix rest)
]

-- [A-Za-z0-9._-]*-0(?:-[0-9a-f]{8})?, greedy: the longest run of characters that the end follows.
abbrev match_run : Text → Option Text
match_run [] = none
match_run (c ∷ text) =
    let longer = match_run text in
    let here = match_end (c ∷ text) in
    if is_id_character c then elim longer [ none ↦ here | some m ↦ some (c ∷ m) ] else here

-- cmpl-[A-Za-z0-9._-]+-0(?:-[0-9a-f]{8})?, where the text begins.
abbrev match_generic : Text → Option Text
match_generic text = elim (remove_prefix (codes "cmpl-") text) [
  | none ↦ none
  | some [] ↦ none
  | some (c ∷ rest) ↦
      if is_id_character c
      then elim (match_run rest) [ none ↦ none | some m ↦ some (codes "cmpl-" ++ c ∷ m) ]
      else none
]

-- re.finditer: leftmost matches that do not overlap; `skip` characters belong to the last one.
unfoldable pub generic_ids_from : ℕ → Text → List Text
generic_ids_from skip [] = []
generic_ids_from (suc skip) (c ∷ text) = generic_ids_from skip text
generic_ids_from zero (c ∷ text) = elim (match_generic (c ∷ text)) [
  | none ↦ generic_ids_from zero text
  | some m ↦ m ∷ generic_ids_from (length m - 1) text
]

unfoldable pub all_generic_ids : List RawLogRecord → List Text
all_generic_ids records = concat (map (λ r. generic_ids_from 0 r.raw_record) records)

abbrev pub only : List RawLogRecord → Result CorrelationError RawLogRecord
only (r ∷ []) = ok r
only _ = err received_ambiguous

abbrev pub head_of : List RawLogRecord → Option RawLogRecord
head_of [] = none
head_of (r ∷ rest) = some r

-- The last part: the chain is built, and its validators run.
unfoldable pub build_chain :
    Text
    → Text
    → RawLogRecord
    → RawLogRecord
    → List RawLogRecord
    → List RawLogRecord
    → Result CorrelationError RequestIdentityChain
build_chain base internal_id received added external_aborts internal_aborts =
    let chain : RequestIdentityChain = record {
      external_base_id = base;
      response_body_id = response_id base;
      serving_item_id = serving_id base;
      internal_engine_id = internal_id;
      request_received_log = received;
      request_add_log = added;
      external_abort_log = head_of external_aborts;
      internal_abort_log = head_of internal_aborts;
    } in
    if chain_is_valid chain then ok chain else err chronology_differs

abbrev has_one : List RawLogRecord → Bool
has_one rs = length rs == 1

abbrev is_empty : List RawLogRecord → Bool
is_empty rs = length rs == 0

module _ (is_word : ℕ → Bool) where
  -- \b before a word character, where `before` is the character that precedes it.
  abbrev boundary : Option ℕ → Bool
  boundary none = true
  boundary (some c) = not (is_word c)

  -- Pattern.search of \b and a literal that begins with a word character.
  abbrev search_from : Option ℕ → Text → Text → Bool
  search_from before literal [] = false
  search_from before literal (c ∷ text) =
      boundary before && is_prefix literal (c ∷ text) || search_from (some c) literal text

  abbrev pub search_literal : Text → RawLogRecord → Bool
  search_literal literal r = search_from none literal r.raw_record

  -- Added request ({serving_item}-[0-9a-f]{8})\. where the text begins, and its group 1.
  abbrev match_added : Text → Text → Option Text
  match_added item text = elim (remove_prefix (codes "Added request " ++ item ++ codes "-") text) [
    | none ↦ none
    | some rest ↦ elim (take_hex 8 rest) [
      | none ↦ none
      | some p ↦ if is_prefix (codes ".") p.1 then some (item ++ codes "-" ++ p.0) else none
    ]
  ]

  abbrev search_added_from : Option ℕ → Text → Text → Option Text
  search_added_from before item [] = none
  search_added_from before item (c ∷ text) =
      let later = search_added_from (some c) item text in
      if boundary before
      then elim (match_added item (c ∷ text)) [ none ↦ later | some m ↦ some m ]
      else later

  unfoldable pub search_added : Text → RawLogRecord → Option Text
  search_added item r = search_added_from none item r.raw_record

  -- internal_matches: the records that match, with group 1.
  abbrev pub internal_matches : Text → List RawLogRecord → List (RawLogRecord × Text)
  internal_matches item [] = []
  internal_matches item (r ∷ records) = elim (search_added item r) [
    | none ↦ internal_matches item records
    | some m ↦ (r, m) ∷ internal_matches item records
  ]

  -- [record for record in records if pattern.search(record.raw_record)]
  unfoldable pub matching : Text → List RawLogRecord → List RawLogRecord
  matching literal records = select (search_literal literal) records

  unfoldable pub only_added :
      Text → List RawLogRecord → Result CorrelationError (RawLogRecord × Text)
  only_added item records = elim (internal_matches item records) [
    | [] ↦ err added_ambiguous
    | p ∷ [] ↦ ok p
    | p ∷ q ∷ rest ↦ err added_ambiguous
  ]

  -- From the two generic tests on, with what was found before.
  unfoldable pub finish :
      Text
      → List RawLogRecord
      → Bool
      → RawLogRecord
      → RawLogRecord × Text
      → Result CorrelationError RequestIdentityChain
  finish base records cancellation received added =
      let external_aborts =
        matching (codes "Request " ++ serving_id base ++ codes " aborted.") records in
      let internal_aborts =
        matching (codes "Aborted request(s) " ++ added.1 ++ codes ".") records in
      let chain = build_chain base added.1 received added.0 external_aborts internal_aborts in
      if not (all (λ i. mem list_eq i (serving_id base ∷ added.1 ∷ [])) (all_generic_ids records))
      then err cross_request
      else if cancellation
      then (if has_one external_aborts && has_one internal_aborts
          then chain
          else err aborts_required)
      else if is_empty external_aborts && is_empty internal_aborts
      then chain
      else err unexpected_aborts

  unfoldable pub correlate_request_logs :
      Text → List RawLogRecord → Bool → Result CorrelationError RequestIdentityChain
  correlate_request_logs base records cancellation =
      elim (only (matching (codes "Received request " ++ serving_id base ++ codes ":") records)) [
        | err e ↦ err e
        | ok received ↦ elim (only_added (serving_id base) records) [
          | err e ↦ err e
          | ok added ↦ finish base records cancellation received added
        ]
      ]
