-- ===== src/RequestLogs/Retain/Returns.antt =====
-- src/llm_inference_systems/stage2_protocol.py: nonempty lines are always retained, and the capture
-- gives them back.
use llm_inference_systems.Prelude.{
  ℕ, suc, ◌+◌, ◌≡◌, refl, ap, Bool, true, Option, none, some, List, [], ◌∷◌, map, arith, ltb, ◌==◌,
  ==_refl, length, length-append, all, list_eq, list_eq_refl, ok, pairs_hold, is_sorted, ◌&&◌,
}
use llm_inference_systems.Sse.Codec.{Text}
use llm_inference_systems.Stage2.Chain.{RawLogRecord}
use llm_inference_systems.RequestLogs.Retain.{
  is_identifier, is_encodable, bytes_of, Codecs, RawLogCapture, join_bytes, ordinals_from, adjacent,
  ends_at, record_is_valid, inventory_matches, capture_is_valid, record_of, retain_from,
  retain_raw_log_records, capture_of, retain_raw_log_capture, counted, starts_at_0,
}

module _ (K : Codecs) (source : Text) where
  -- The records of the lines, one after another.
  abbrev records_for : ℕ → ℕ → List Text → List ℕ → List RawLogRecord
  records_for ordinal start [] offsets = []
  records_for ordinal start (line ∷ lines) [] = []
  records_for ordinal start (line ∷ lines) (o ∷ offsets) =
      record_of K source ordinal start o line
      ∷ records_for (suc ordinal) (start + length (bytes_of K line) + 1) lines offsets

  abbrev is_nonempty : Text → Bool
  is_nonempty line = is_encodable K line && ltb 0 (length (bytes_of K line))

  record_of-valid :
      (ordinal start o : ℕ) (line : Text)
      → is_identifier source ≡ true
      → is_nonempty line ≡ true
      → record_is_valid K (record_of K source ordinal start o line) ≡ true
  unfolding record_is_valid
  record_of-valid ordinal start o line named h =
      ground (arith, named, h, list_eq_refl (K.sha256_hex (bytes_of K line)))

  retain_from-ok :
      (ordinal start : ℕ) (lines : List Text) (offsets : List ℕ)
      → is_identifier source ≡ true
      → length offsets ≡ length lines
      → all is_nonempty lines ≡ true
      → retain_from K source ordinal start lines offsets
        ≡ ok (records_for ordinal start lines offsets)
  unfolding retain_from
  retain_from-ok ordinal start [] offsets named l h = refl
  retain_from-ok ordinal start (line ∷ lines) [] named l h = absurd (omega (arith, l))
  retain_from-ok ordinal start (line ∷ lines) (o ∷ offsets) named l h =
      let encodable : is_encodable K line ≡ true = ground (arith, h) in
      let first = record_of-valid ordinal start o line named (ground (arith, h)) in
      let rest =
        retain_from-ok (suc ordinal) (start + length (bytes_of K line) + 1) lines offsets named
          (omega (arith, l)) (ground (arith, h)) in
      rw (encodable, first, rest) refl

  texts_kept :
      (ordinal start : ℕ) (lines : List Text) (offsets : List ℕ)
      → length offsets ≡ length lines
      → map (λ r. r.raw_record) (records_for ordinal start lines offsets) ≡ lines
  texts_kept ordinal start [] offsets l = refl
  texts_kept ordinal start (line ∷ lines) [] l = absurd (omega (arith, l))
  texts_kept ordinal start (line ∷ lines) (o ∷ offsets) l =
      ap (λ rest. line ∷ rest)
        (texts_kept (suc ordinal) (start + length (bytes_of K line) + 1) lines offsets
          (omega (arith, l)))

  bytes_kept :
      (ordinal start : ℕ) (lines : List Text) (offsets : List ℕ)
      → length offsets ≡ length lines
      → map (λ r. bytes_of K r.raw_record) (records_for ordinal start lines offsets)
        ≡ map (bytes_of K) lines
  bytes_kept ordinal start [] offsets l = refl
  bytes_kept ordinal start (line ∷ lines) [] l = absurd (omega (arith, l))
  bytes_kept ordinal start (line ∷ lines) (o ∷ offsets) l =
      ap (λ rest. bytes_of K line ∷ rest)
        (bytes_kept (suc ordinal) (start + length (bytes_of K line) + 1) lines offsets
          (omega (arith, l)))

  offsets_kept :
      (ordinal start : ℕ) (lines : List Text) (offsets : List ℕ)
      → length offsets ≡ length lines
      → map (λ r. r.observation_offset_ns) (records_for ordinal start lines offsets) ≡ offsets
  offsets_kept ordinal start [] [] l = refl
  offsets_kept ordinal start [] (o ∷ offsets) l = absurd (omega (arith, l))
  offsets_kept ordinal start (line ∷ lines) [] l = absurd (omega (arith, l))
  offsets_kept ordinal start (line ∷ lines) (o ∷ offsets) l =
      ap (λ rest. o ∷ rest)
        (offsets_kept (suc ordinal) (start + length (bytes_of K line) + 1) lines offsets
          (omega (arith, l)))

  one_source :
      (ordinal start : ℕ) (lines : List Text) (offsets : List ℕ)
      → all (λ r. list_eq r.source_stream_id source) (records_for ordinal start lines offsets)
        ≡ true
  one_source ordinal start [] offsets = refl
  one_source ordinal start (line ∷ lines) [] = refl
  one_source ordinal start (line ∷ lines) (o ∷ offsets) =
      rw (list_eq_refl source)
        (one_source (suc ordinal) (start + length (bytes_of K line) + 1) lines offsets)

  all_encodable :
      (ordinal start : ℕ) (lines : List Text) (offsets : List ℕ)
      → all is_nonempty lines ≡ true
      → all (λ r. is_encodable K r.raw_record) (records_for ordinal start lines offsets) ≡ true
  all_encodable ordinal start [] offsets h = refl
  all_encodable ordinal start (line ∷ lines) [] h = refl
  all_encodable ordinal start (line ∷ lines) (o ∷ offsets) h =
      let encodable : is_encodable K line ≡ true = ground (arith, h) in
      rw encodable (
        all_encodable (suc ordinal) (start + length (bytes_of K line) + 1) lines offsets
          (ground (arith, h)))

  counted_ordinals :
      (ordinal start : ℕ) (lines : List Text) (offsets : List ℕ)
      → ordinals_from ordinal (records_for ordinal start lines offsets) ≡ true
  unfolding ordinals_from
  counted_ordinals ordinal start [] offsets = refl
  counted_ordinals ordinal start (line ∷ lines) [] = refl
  counted_ordinals ordinal start (line ∷ lines) (o ∷ offsets) =
      rw (==_refl ordinal)
        (counted_ordinals (suc ordinal) (start + length (bytes_of K line) + 1) lines offsets)

  all_adjacent :
      (ordinal start : ℕ) (lines : List Text) (offsets : List ℕ)
      → pairs_hold adjacent (records_for ordinal start lines offsets) ≡ true
  all_adjacent ordinal start [] offsets = refl
  all_adjacent ordinal start (line ∷ lines) [] = refl
  all_adjacent ordinal start (line ∷ []) (o ∷ offsets) = refl
  all_adjacent ordinal start (line ∷ next ∷ lines) (o ∷ []) = refl
  all_adjacent ordinal start (line ∷ next ∷ lines) (o ∷ p ∷ offsets) =
      rw (==_refl (start + length (bytes_of K line) + 1)) (
        all_adjacent (suc ordinal) (start + length (bytes_of K line) + 1) (next ∷ lines)
          (p ∷ offsets))

  ends_at-join :
      (size ordinal start : ℕ) (line : Text) (lines : List Text) (offsets : List ℕ)
      → length offsets ≡ length (line ∷ lines)
      → size ≡ start + length (join_bytes (map (bytes_of K) (line ∷ lines)))
      → ends_at size (records_for ordinal start (line ∷ lines) offsets) ≡ true
  unfolding ends_at join_bytes
  ends_at-join size ordinal start line lines [] l e = absurd (omega (arith, l))
  ends_at-join size ordinal start line [] (o ∷ offsets) l e = ground (arith, e)
  ends_at-join size ordinal start line (next ∷ lines) (o ∷ []) l e = absurd (omega (arith, l))
  ends_at-join size ordinal start line (next ∷ lines) (o ∷ p ∷ offsets) l e =
      let joined = join_bytes (map (bytes_of K) (next ∷ lines)) in
      ends_at-join size (suc ordinal) (start + length (bytes_of K line) + 1) next lines
        (p ∷ offsets) (omega (arith, l))
        (omega (arith, e, length-append (bytes_of K line) (10 ∷ joined)))

  -- The two tests of `validate_capture`, from their parts.
  inventory_parts :
      (c : RawLogCapture) (exact : List ℕ)
      → length exact ≡ c.decoded_byte_count
      → list_eq (K.sha256_hex exact) c.raw_bytes_sha256 ≡ true
      → list_eq exact (join_bytes (map (λ r. bytes_of K r.raw_record) c.records)) ≡ true
      → all (λ r. list_eq r.source_stream_id c.source_stream_id) c.records ≡ true
      → ordinals_from 0 c.records ≡ true
      → starts_at_0 c.records ≡ true
      → pairs_hold adjacent c.records ≡ true
      → ends_at (length exact) c.records ≡ true
      → inventory_matches K c exact ≡ true
  unfolding inventory_matches
  inventory_parts c exact h1 h2 h3 h4 h5 h6 h7 h8 = ground (arith, h1, h2, h3, h4, h5, h6, h7, h8)

  capture_parts :
      (c : RawLogCapture) (exact : List ℕ)
      → K.b64decode c.exact_bytes_base64 ≡ some exact
      → is_identifier c.source_stream_id ≡ true
      → list_eq (K.b64encode exact) c.exact_bytes_base64 ≡ true
      → all (λ r. is_encodable K r.raw_record) c.records ≡ true
      → inventory_matches K c exact ≡ true
      → list_eq c.identity_sha256 (
          K.identity c.source_stream_id c.exact_bytes_base64 c.decoded_byte_count c.raw_bytes_sha256
            c.records)
        ≡ true
      → capture_is_valid K c ≡ true
  unfolding capture_is_valid
  capture_parts c exact decoded h1 h2 h3 h4 h5 = ground (arith, decoded, h1, h2, h3, h4, h5)

  module _ (decodes : (bytes : List ℕ) → K.b64decode (K.b64encode bytes) ≡ some bytes) where
    capture_of-valid :
        (line : Text) (lines : List Text) (offsets : List ℕ)
        → is_identifier source ≡ true
        → length offsets ≡ length (line ∷ lines)
        → all is_nonempty (line ∷ lines) ≡ true
        → capture_is_valid K
            (capture_of K source (line ∷ lines) (records_for 0 0 (line ∷ lines) offsets))
          ≡ true
    capture_of-valid line lines [] named l h = absurd (omega (arith, l))
    capture_of-valid line lines (o ∷ offsets) named l h =
        let records = records_for 0 0 (line ∷ lines) (o ∷ offsets) in
        let exact = join_bytes (map (bytes_of K) (line ∷ lines)) in
        let c = capture_of K source (line ∷ lines) records in
        let same : list_eq exact (join_bytes (map (λ r. bytes_of K r.raw_record) records)) ≡ true =
          rw (bytes_kept 0 0 (line ∷ lines) (o ∷ offsets) l) (list_eq_refl exact) in
        capture_parts c exact (decodes exact) named (list_eq_refl (K.b64encode exact))
          (all_encodable 0 0 (line ∷ lines) (o ∷ offsets) h)
          (inventory_parts c exact refl (list_eq_refl (K.sha256_hex exact)) same
            (one_source 0 0 (line ∷ lines) (o ∷ offsets))
            (counted_ordinals 0 0 (line ∷ lines) (o ∷ offsets)) refl
            (all_adjacent 0 0 (line ∷ lines) (o ∷ offsets))
            (ends_at-join (length exact) 0 0 line lines (o ∷ offsets) l (omega arith)))
          (list_eq_refl c.identity_sha256)

-- The offsets that a caller may give: none, or one for each line, in order.
abbrev pub MayObserve : List Text → Option (List ℕ) → Type 0
MayObserve lines none = Unit
MayObserve lines (some offsets) = (length offsets ≡ length lines) × (is_sorted offsets ≡ true)

-- The offsets that the records get.
abbrev pub offsets_of : ℕ → List Text → Option (List ℕ) → List ℕ
offsets_of first lines none = counted first lines
offsets_of first lines (some offsets) = offsets

counted-length : (first : ℕ) (lines : List Text) → length (counted first lines) ≡ length lines
counted-length first [] = refl
counted-length first (line ∷ lines) = ap (λ n. suc n) (counted-length (suc first) lines)

offsets_of-length :
    (first : ℕ) (lines : List Text) (offsets : Option (List ℕ))
    → MayObserve lines offsets
    → length (offsets_of first lines offsets) ≡ length lines
offsets_of-length first lines none m = counted-length first lines
offsets_of-length first lines (some offsets) m = m.0

module _ (K : Codecs) (source : Text) where
  retain_raw_log_records-ok :
      (lines : List Text) (first : ℕ) (offsets : Option (List ℕ))
      → is_identifier source ≡ true
      → MayObserve lines offsets
      → all (is_nonempty K source) lines ≡ true
      → retain_raw_log_records K lines source first offsets
        ≡ ok (records_for K source 0 0 lines (offsets_of first lines offsets))
  unfolding retain_raw_log_records
  retain_raw_log_records-ok lines first none named m h =
      retain_from-ok K source 0 0 lines (counted first lines) named (counted-length first lines) h
  retain_raw_log_records-ok lines first (some offsets) named (l, sorted) h =
      let same : (length offsets == length lines) ≡ true = rw l (==_refl (length lines)) in
      rw (same, sorted) (retain_from-ok K source 0 0 lines offsets named l h)

  retain_raw_log_capture-ok :
      (lines : List Text) (first : ℕ) (offsets : Option (List ℕ)) (records : List RawLogRecord)
      → retain_raw_log_records K lines source first offsets ≡ ok records
      → capture_is_valid K (capture_of K source lines records) ≡ true
      → retain_raw_log_capture K lines source first offsets ≡ ok (capture_of K source lines records)
  unfolding retain_raw_log_capture
  retain_raw_log_capture-ok lines first offsets records e v = ground (arith, e, v)

  -- What a capture of the lines holds.
  pub record Retains (lines : List Text) (offsets : List ℕ) (c : RawLogCapture) : Type 0 where
    pub valid : capture_is_valid K c ≡ true
    pub lines_back : map (λ r. r.raw_record) c.records ≡ lines
    pub bytes_back : K.b64decode c.exact_bytes_base64 ≡ some (join_bytes (map (bytes_of K) lines))
    pub offsets_back : map (λ r. r.observation_offset_ns) c.records ≡ offsets

  -- Lines of a source with an identifier, at least one and all of them encodable and not empty, with no
  -- offsets given or one for each of them in order, are always retained: the validators of the records and of the capture accept, and the
  -- capture gives the lines back, their exact bytes and the offsets, if Base64 decodes what it encodes.
  pub retain_raw_log_capture-Retains :
      (line : Text) (lines : List Text) (first : ℕ) (offsets : Option (List ℕ))
      → ((bytes : List ℕ) → K.b64decode (K.b64encode bytes) ≡ some bytes)
      → is_identifier source ≡ true
      → MayObserve (line ∷ lines) offsets
      → all (λ l. is_encodable K l && ltb 0 (length (bytes_of K l))) (line ∷ lines) ≡ true
      → (c : RawLogCapture) × (retain_raw_log_capture K (line ∷ lines) source first offsets ≡ ok c)
        × Retains (line ∷ lines) (offsets_of first (line ∷ lines) offsets) c
  retain_raw_log_capture-Retains line lines first offsets decodes named m h =
      let given = offsets_of first (line ∷ lines) offsets in
      let l = offsets_of-length first (line ∷ lines) offsets m in
      let records = records_for K source 0 0 (line ∷ lines) given in
      let valid = capture_of-valid K source decodes line lines given named l h in
      (
        capture_of K source (line ∷ lines) records,
        retain_raw_log_capture-ok (line ∷ lines) first offsets records
            (retain_raw_log_records-ok (line ∷ lines) first offsets named m h) valid,
        record {
          valid = valid;
          lines_back = texts_kept K source 0 0 (line ∷ lines) given l;
          bytes_back = decodes (join_bytes (map (bytes_of K) (line ∷ lines)));
          offsets_back = offsets_kept K source 0 0 (line ∷ lines) given l;
        },
      )
