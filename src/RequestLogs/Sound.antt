-- ===== src/RequestLogs/Sound.antt =====
-- src/llm_inference_systems/stage2_protocol.py: what the log chain of correlate_request_logs says of
-- all the records.
use llm_inference_systems.Prelude.{
  ℕ, ◌≡◌, ◌⊎◌, inl, inr, Bool, true, false, List, [], ◌∷◌, ◌++◌, arith, is_some, Bool-cases, codes,
  all, list_eq, list_eq-eq, mem, ok, Option, length, Result-cases, ◌==◌, if◌then◌else◌,
}
use llm_inference_systems.Sse.Codec.{Text}
use llm_inference_systems.Stage2.Chain.{
  RawLogRecord, RequestIdentityChain, serving_id, present, chain_is_valid,
}
use llm_inference_systems.RequestLogs.{
  matching, all_generic_ids, build_chain, internal_matches, only, only_added,
  correlate_request_logs, finish, head_of,
}

all-mem :
    (test : Text → Bool) (x : Text) (xs : List Text)
    → all test xs ≡ true
    → mem list_eq x xs ≡ true
    → test x ≡ true
all-mem test x [] h m = ground arith
all-mem test x (y ∷ ys) h m = elim (Bool-cases (list_eq x y)) [
  | inl e ↦ rw (list_eq-eq x y e) (ground (arith, h))
  | inr e ↦ all-mem test x ys (ground (arith, h)) (ground (arith, m, e))
]

one_of : (i a b : Text) → mem list_eq i (a ∷ b ∷ []) ≡ true → (i ≡ a) ⊎ (i ≡ b)
one_of i a b h = elim (Bool-cases (list_eq i a)) [
  | inl e ↦ inl (list_eq-eq i a e)
  | inr e ↦ inr (list_eq-eq i b (ground (arith, h, e)))
]

module _ (is_word : ℕ → Bool) where
  -- What the chain says of the records.
  pub record IsCorrelated (base : Text) (records : List RawLogRecord) (cancellation : Bool)
      (chain : RequestIdentityChain) : Type 0 where
    pub own_base : chain.external_base_id ≡ base
    pub valid : chain_is_valid chain ≡ true
    pub received_once :
        matching is_word (codes "Received request " ++ serving_id base ++ codes ":") records
        ≡ chain.request_received_log ∷ []
    pub added_once :
        internal_matches is_word (serving_id base) records
        ≡ (chain.request_add_log, chain.internal_engine_id) ∷ []
    pub own_ids :
        (i : Text)
        → mem list_eq i (all_generic_ids records) ≡ true
        → (i ≡ serving_id base) ⊎ (i ≡ chain.internal_engine_id)
    pub external_aborts :
        matching is_word (codes "Request " ++ serving_id base ++ codes " aborted.") records
        ≡ present chain.external_abort_log
    pub internal_aborts :
        matching is_word
          (codes "Aborted request(s) " ++ chain.internal_engine_id ++ codes ".")
          records
        ≡ present chain.internal_abort_log
    pub external_as_asked : is_some chain.external_abort_log ≡ cancellation
    pub internal_as_asked : is_some chain.internal_abort_log ≡ cancellation

  only_effect : (rs : List RawLogRecord) (r : RawLogRecord) → only rs ≡ ok r → rs ≡ r ∷ []
  only_effect [] r e = ground arith
  only_effect (x ∷ []) r e = ground (arith, e)
  only_effect (x ∷ y ∷ rest) r e = ground arith

  only_added_effect :
      (item : Text) (records : List RawLogRecord) (p : RawLogRecord × Text)
      → only_added is_word item records ≡ ok p
      → internal_matches is_word item records ≡ p ∷ []
  unfolding only_added
  only_added_effect item records p e = ground (arith, e)

  build_chain_effect :
      (base internal_id : Text) (received added : RawLogRecord)
      (external internal : List RawLogRecord) (chain : RequestIdentityChain)
      → build_chain base internal_id received added external internal ≡ ok chain
      → (chain.external_base_id ≡ base)
        × (chain.internal_engine_id ≡ internal_id)
        × (chain.request_received_log ≡ received)
        × (chain.request_add_log ≡ added)
        × (chain.external_abort_log ≡ head_of external)
        × (chain.internal_abort_log ≡ head_of internal)
        × (chain_is_valid chain ≡ true)
  unfolding build_chain
  build_chain_effect base internal_id received added external internal chain e = ground (arith, e)

module _ (is_word : ℕ → Bool) where
  abbrev external_of : Text → List RawLogRecord → List RawLogRecord
  external_of base = matching is_word (codes "Request " ++ serving_id base ++ codes " aborted.")

  abbrev internal_of : Text → List RawLogRecord → List RawLogRecord
  internal_of id = matching is_word (codes "Aborted request(s) " ++ id ++ codes ".")

  abbrev as_asked : Bool → List RawLogRecord → Bool
  as_asked cancellation rs = length rs == (if cancellation then 1 else 0)

  finish_effect :
      (base : Text) (records : List RawLogRecord) (cancellation : Bool) (received : RawLogRecord)
      (added : RawLogRecord × Text) (chain : RequestIdentityChain)
      → finish is_word base records cancellation received added ≡ ok chain
      → (all (λ i. mem list_eq i (serving_id base ∷ added.1 ∷ [])) (all_generic_ids records) ≡ true)
        × (as_asked cancellation (external_of base records) ≡ true)
        × (as_asked cancellation (internal_of added.1 records) ≡ true)
        × (build_chain base added.1 received added.0
              (external_of base records)
              (internal_of added.1 records)
            ≡ ok chain)
  unfolding finish
  finish_effect base records true received added chain e = ground (arith, e)
  finish_effect base records false received added chain e = ground (arith, e)

  as_asked-present :
      (cancellation : Bool) (rs : List RawLogRecord) (o : Option RawLogRecord)
      → as_asked cancellation rs ≡ true
      → o ≡ head_of rs
      → (rs ≡ present o) × (is_some o ≡ cancellation)
  as_asked-present true [] o h e = ground arith
  as_asked-present false [] o h e = ground (arith, e)
  as_asked-present true (r ∷ []) o h e = ground (arith, e)
  as_asked-present false (r ∷ rs) o h e = ground arith
  as_asked-present true (r ∷ x ∷ rs) o h e = ground arith

  parts :
      (base : Text) (records : List RawLogRecord) (cancellation : Bool)
      (chain : RequestIdentityChain)
      → correlate_request_logs is_word base records cancellation ≡ ok chain
      → (received : RawLogRecord) × (added : RawLogRecord × Text) × (matching is_word
            (codes "Received request " ++ serving_id base ++ codes ":")
            records
          ≡ received ∷ [])
        × (internal_matches is_word (serving_id base) records ≡ added ∷ [])
        × (finish is_word base records cancellation received added ≡ ok chain)
  unfolding correlate_request_logs
  parts base records cancellation chain e =
      let found =
        matching is_word (codes "Received request " ++ serving_id base ++ codes ":") records in
      elim (Result-cases (only found)) [
        | inr (x, r) ↦ ground (arith, e, r)
        | inl (received, r) ↦ elim (Result-cases (only_added is_word (serving_id base) records)) [
          | inr (y, q) ↦ ground (arith, e, r, q)
          | inl (added, q) ↦ (
            received,
            added,
            only_effect is_word found received r,
            only_added_effect is_word (serving_id base) records added q,
            ground (arith, e, r, q),
          )
        ]
      ]

  -- A chain that is returned is valid, and is what the whole log says of the request: it was received
  -- once in the whole log and added once in it, under the engine's id, no other request is named anywhere, and the aborts of
  -- both kinds are there, once each, exactly if a cancellation was asked for.
  pub correlate_request_logs-IsCorrelated :
      (base : Text) (records : List RawLogRecord) (cancellation : Bool)
      (chain : RequestIdentityChain)
      → correlate_request_logs is_word base records cancellation ≡ ok chain
      → IsCorrelated is_word base records cancellation chain
  correlate_request_logs-IsCorrelated base records cancellation chain e =
      let (received, added, once, found, finished) = parts base records cancellation chain e in
      let (own, ext, int, built) =
        finish_effect base records cancellation received added chain finished in
      let (base_eq, id_eq, received_eq, added_eq, ext_eq, int_eq, valid) =
        build_chain_effect is_word base added.1 received added.0 (external_of base records)
          (internal_of added.1 records) chain built in
      let e1 = as_asked-present cancellation _ chain.external_abort_log ext ext_eq in
      let i1 = as_asked-present cancellation _ chain.internal_abort_log int int_eq in
      record {
        own_base = base_eq;
        valid = valid;
        received_once = rw received_eq once;
        added_once = rw (added_eq, id_eq) found;
        own_ids = λ i m. rw id_eq (one_of i (serving_id base) added.1 (all-mem _ i _ own m));
        external_aborts = e1.0;
        internal_aborts = rw id_eq i1.0;
        external_as_asked = e1.1;
        internal_as_asked = i1.1;
      }
