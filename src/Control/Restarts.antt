-- ===== src/Control/Restarts.antt =====
-- src/llm_inference_systems/stage2_control.py: `compare_three_restarts`. The fields `finish_reason`,
-- `prompt_tokens`, `completion_tokens` and `total_tokens` have one possible value each, so they never
-- differ and are left out.
use llm_inference_systems.Prelude.{
  ℕ, ◌≡◌, refl, sym, ◌∙◌, ◌↔◌, Bool, true, false, ◌&&◌, not, List, [], ◌∷◌, ◌++◌, map, arith, leb,
  ◌==◌, if◌then◌else◌, &&-split, length, all, any, list_eq, list_eq-eq, list_eq_refl, Result, ok,
  err, distinct, mem,
}
use llm_inference_systems.Sse.Codec.{Text}

pub record RestartSemanticRecord : Type 0 where
  pub repetition_index : ℕ
  pub bundle_manifest_sha256 : Text
  pub case_id : Text
  pub sent_prompt_token_ids : List ℕ
  pub returned_prompt_token_ids : List ℕ
  pub output_token_ids : List ℕ
  pub output_text_sha256 : Text
  pub replacement_run : Bool

pub data Field : Type 0 where
  case_id sent_prompt_token_ids returned_prompt_token_ids output_token_ids output_text_sha256 :
      Field

pub data AggregateState : Type 0 where
  committed invalid_semantic_nonreproduction : AggregateState

-- f"restart-{index}:{field}" is kept as its two parts.
pub record Mismatch : Type 0 where
  pub restart : ℕ
  pub field : Field

pub record RestartComparison : Type 0 where
  pub case_id : Text
  pub state : AggregateState
  pub mismatches : List Mismatch

pub data RestartError : Type 0 where
  not_three_records replacement_selected : RestartError

abbrev insert : RestartSemanticRecord → List RestartSemanticRecord → List RestartSemanticRecord
insert r [] = r ∷ []
insert r (s ∷ records) =
    let rest = insert r records in
    if leb r.repetition_index s.repetition_index then r ∷ s ∷ records else s ∷ rest

-- sorted(records, key=lambda record: record.repetition_index)
unfoldable pub by_index : List RestartSemanticRecord → List RestartSemanticRecord
by_index [] = []
by_index (r ∷ records) = insert r (by_index records)

abbrev unless : Bool → ℕ → Field → List Mismatch
unless same index field = if same then [] else (record { restart = index; field = field }) ∷ []

-- The mismatches of one restart with the baseline, in the order of the fields.
unfoldable pub mismatches_of : RestartSemanticRecord → RestartSemanticRecord → List Mismatch
mismatches_of b r =
    unless (list_eq r.case_id b.case_id) r.repetition_index case_id
    ++ (unless (list_eq r.sent_prompt_token_ids b.sent_prompt_token_ids) r.repetition_index
          sent_prompt_token_ids
        ++ (unless (list_eq r.returned_prompt_token_ids b.returned_prompt_token_ids)
              r.repetition_index returned_prompt_token_ids
            ++ (unless (list_eq r.output_token_ids b.output_token_ids) r.repetition_index
                  output_token_ids
                ++ unless (list_eq r.output_text_sha256 b.output_text_sha256) r.repetition_index
                    output_text_sha256)))

unfoldable pub all_mismatches : RestartSemanticRecord → List RestartSemanticRecord → List Mismatch
all_mismatches b [] = []
all_mismatches b (r ∷ records) = mismatches_of b r ++ all_mismatches b records

abbrev state_of : List Mismatch → AggregateState
state_of [] = committed
state_of (_ ∷ _) = invalid_semantic_nonreproduction

abbrev pub comparison_with : RestartSemanticRecord → List RestartSemanticRecord → RestartComparison
comparison_with b rest = record {
  case_id = b.case_id;
  state = state_of (all_mismatches b rest);
  mismatches = all_mismatches b rest;
}

abbrev compared : List RestartSemanticRecord → Result RestartError RestartComparison
compared [] = err not_three_records
compared (b ∷ rest) = ok (comparison_with b rest)

abbrev same_index : ℕ → ℕ → Bool
same_index m n = m == n

-- len(records) == 3, and their indexes are 1, 2 and 3.
abbrev are_one_two_three : List RestartSemanticRecord → Bool
are_one_two_three records =
    let indexes = map (λ r. r.repetition_index) records in
    length records == 3
    && (all (λ i. mem same_index i (1 ∷ 2 ∷ 3 ∷ [])) indexes
        && (all (λ i. mem same_index i indexes) (1 ∷ 2 ∷ 3 ∷ []) && distinct same_index indexes))

unfoldable pub compare_three_restarts :
    List RestartSemanticRecord → Result RestartError RestartComparison
compare_three_restarts records =
    if not (are_one_two_three records)
    then err not_three_records
    else if any (λ r. r.replacement_run) records
    then err replacement_selected
    else compared (by_index records)

-- Two restarts agree in every field that the comparison reads.
abbrev pub agrees : RestartSemanticRecord → RestartSemanticRecord → Bool
agrees a b =
    list_eq a.case_id b.case_id
    && (list_eq a.sent_prompt_token_ids b.sent_prompt_token_ids
        && (list_eq a.returned_prompt_token_ids b.returned_prompt_token_ids
            && (list_eq a.output_token_ids b.output_token_ids
                && list_eq a.output_text_sha256 b.output_text_sha256)))

all-insert :
    (test : RestartSemanticRecord → Bool) (r : RestartSemanticRecord)
    (records : List RestartSemanticRecord)
    → all test (insert r records) ≡ (test r && all test records)
all-insert test r [] = refl
all-insert test r (s ∷ records) = ground (arith, all-insert test r records)

all-by_index :
    (test : RestartSemanticRecord → Bool) (records : List RestartSemanticRecord)
    → all test (by_index records) ≡ all test records
unfolding by_index
all-by_index test [] = refl
all-by_index test (r ∷ records) =
    rw (all-insert test r (by_index records), all-by_index test records) refl

no_mismatch : (b r : RestartSemanticRecord) → mismatches_of b r ≡ [] → agrees r b ≡ true
unfolding mismatches_of
no_mismatch b r h = ground (arith, h)

no_parts {ℓ} : {A : Type ℓ} (xs ys : List A) → xs ++ ys ≡ [] → (xs ≡ []) × (ys ≡ [])
no_parts [] ys h = (refl, h)
no_parts (x ∷ xs) ys h = cc

none_mismatched :
    (b : RestartSemanticRecord) (records : List RestartSemanticRecord)
    → all_mismatches b records ≡ []
    → all (λ r. agrees r b) records ≡ true
unfolding all_mismatches
none_mismatched b [] h = refl
none_mismatched b (r ∷ records) h =
    let (here, later) = no_parts (mismatches_of b r) (all_mismatches b records) h in
    rw (no_mismatch b r here) (none_mismatched b records later)

all_agree :
    (b : RestartSemanticRecord) (records : List RestartSemanticRecord)
    → all (λ r. agrees r b) records ≡ true
    → all_mismatches b records ≡ []
unfolding all_mismatches mismatches_of
all_agree b [] h = refl
all_agree b (r ∷ records) h = ground (arith, all_agree b records)

agrees_refl : (a : RestartSemanticRecord) → agrees a a ≡ true
agrees_refl a =
    rw
      (
        list_eq_refl a.case_id,
        list_eq_refl a.sent_prompt_token_ids,
        list_eq_refl a.returned_prompt_token_ids,
        list_eq_refl a.output_token_ids,
        list_eq_refl a.output_text_sha256,
      )
      refl

list_eq-both :
    (xs ys zs : List ℕ) → list_eq xs zs ≡ true → list_eq ys zs ≡ true → list_eq xs ys ≡ true
list_eq-both xs ys zs h k = rw (list_eq-eq xs zs h, list_eq-eq ys zs k, list_eq_refl zs) refl

agrees-both :
    (a b c : RestartSemanticRecord) → agrees a c ≡ true → agrees b c ≡ true → agrees a b ≡ true
agrees-both a b c h k = ground (
  arith,
  list_eq-both a.case_id b.case_id c.case_id,
  list_eq-both a.sent_prompt_token_ids b.sent_prompt_token_ids c.sent_prompt_token_ids,
  list_eq-both a.returned_prompt_token_ids b.returned_prompt_token_ids c.returned_prompt_token_ids,
  list_eq-both a.output_token_ids b.output_token_ids c.output_token_ids,
  list_eq-both a.output_text_sha256 b.output_text_sha256 c.output_text_sha256,
)

all_agree_with :
    (b c : RestartSemanticRecord) (records : List RestartSemanticRecord)
    → agrees b c ≡ true
    → all (λ r. agrees r c) records ≡ true
    → all (λ r. agrees r b) records ≡ true
all_agree_with b c [] k h = refl
all_agree_with b c (r ∷ records) k h =
    let (here, later) = &&-split (agrees r c) (all (λ r. agrees r c) records) h in
    rw (agrees-both r b c here k) (all_agree_with b c records k later)

state_of-committed : (ms : List Mismatch) → (state_of ms ≡ committed) ↔ (ms ≡ [])
state_of-committed [] = (λ h. refl, λ h. refl)
state_of-committed (m ∷ ms) = (λ h. cc, λ h. cc)

-- A comparison of ordered records.
compared-committed :
    (ordered : List RestartSemanticRecord) (c : RestartComparison)
    → compared ordered ≡ ok c
    → (c.state ≡ committed) ↔ ((b : RestartSemanticRecord) × (all (λ r. agrees r b) ordered ≡ true))
compared-committed [] c e = cc
compared-committed (b ∷ rest) c e =
    let same : comparison_with b rest ≡ c = ground (arith, e) in
    rw (← same) (
      (λ h. (
        b,
        rw (agrees_refl b)
            (none_mismatched b rest ((state_of-committed (all_mismatches b rest)).0 h)),
      )),
      (λ h.
          let (first, others) = &&-split (agrees b h.0) (all (λ r. agrees r h.0) rest) h.1 in
          (state_of-committed (all_mismatches b rest)).1
            (all_agree b rest (all_agree_with b h.0 rest first others))),
    )

compare_effect :
    (records : List RestartSemanticRecord) (c : RestartComparison)
    → compare_three_restarts records ≡ ok c
    → (length records ≡ 3)
      × (any (λ r. r.replacement_run) records ≡ false)
      × (compared (by_index records) ≡ ok c)
unfolding compare_three_restarts
compare_effect records c e = ground (arith, e)

-- A comparison that is returned is of three records, none a replacement, and it says COMMITTED exactly
-- when all of them agree with one record in the case, the prompts, the output tokens and the text.
pub compare_three_restarts-committed :
    (records : List RestartSemanticRecord) (c : RestartComparison)
    → compare_three_restarts records ≡ ok c
    → (length records ≡ 3)
      × (any (λ r. r.replacement_run) records ≡ false)
      × ((c.state ≡ committed)
          ↔ ((b : RestartSemanticRecord) × (all (λ r. agrees r b) records ≡ true)))
compare_three_restarts-committed records c e =
    let (three, originals, ordered) = compare_effect records c e in
    let (there, back) = compared-committed (by_index records) c ordered in
    (
      three,
      originals,
      (
        (λ h.
            let (b, all_of) = there h in
            (b, sym (all-by_index (λ r. agrees r b) records) ∙ all_of)),
        (λ h. back (h.0, all-by_index (λ r. agrees r h.0) records ∙ h.1)),
      ),
    )
