-- ===== src/Bundle/Validate/Entries.antt =====
-- src/llm_inference_systems/stage2_bundle.py: the entries of an inventory pass the check of a committed
-- bundle, and list its files.
use llm_inference_systems.Prelude.{
  ℕ, ◌≤◌, ◌≡◌, refl, sym, ap, ◌∙◌, inl, inr, Bool, true, not, Option, none, some, List, [], ◌∷◌,
  map, arith, leb, is_some, Bool-cases, Option-cases, codes, all, select, list_eq, list_eq_refl, ok,
}
use llm_inference_systems.Sse.Codec.{Text}
use llm_inference_systems.Bundle.{StoredFile, StoredManifest, Directory}
use llm_inference_systems.Bundle.Paths.{name_of}
use llm_inference_systems.Bundle.Builder.{Environment}
use llm_inference_systems.Bundle.Validate.{
  inventory, sorted_paths, is_control_name, entry_of, stored_at, check_entry, check_entries,
  insert_text, all_paths,
}

all-insert_text :
    (test : Text → Bool) (x : Text) (xs : List Text)
    → test x ≡ true
    → all test xs ≡ true
    → all test (insert_text x xs) ≡ true
all-insert_text test x [] h k = ground (arith, h)
all-insert_text test x (y ∷ ys) h k =
    ground (arith, h, k, all-insert_text test x ys h (ground (arith, k)))

all-sorted_paths :
    (test : Text → Bool) (xs : List Text) → all test xs ≡ true → all test (sorted_paths xs) ≡ true
unfolding sorted_paths
all-sorted_paths test [] h = refl
all-sorted_paths test (x ∷ xs) h =
    all-insert_text test x (sorted_paths xs) (ground (arith, h))
      (all-sorted_paths test xs (ground (arith, h)))

select-all {ℓ} :
    {A : Type ℓ} (test : A → Bool) (xs : List A) → all test xs ≡ true → select test xs ≡ xs
select-all test [] h = refl
select-all test (x ∷ xs) h = ground (arith, h, select-all test xs (ground (arith, h)))

abbrev is_stored : List StoredFile → Text → Bool
is_stored files path = is_some (stored_at path files)

is_stored-cons :
    (f : StoredFile) (files : List StoredFile) (paths : List Text)
    → all (is_stored files) paths ≡ true
    → all (is_stored (f ∷ files)) paths ≡ true
is_stored-cons f files [] h = refl
is_stored-cons f files (p ∷ paths) h =
    ground (arith, h, is_stored-cons f files paths (ground (arith, h)))

all_stored : (files : List StoredFile) → all (is_stored files) (map (λ f. f.path) files) ≡ true
all_stored [] = refl
all_stored (f ∷ files) =
    let rest = is_stored-cons f files (map (λ f. f.path) files) (all_stored files) in
    rw (list_eq_refl f.path, rest) refl

stored_at-modified :
    (clock : ℕ) (path : Text) (files : List StoredFile) (f : StoredFile)
    → all (λ f. leb f.modified clock) files ≡ true
    → stored_at path files ≡ some f
    → f.modified ≤ clock
stored_at-modified clock path [] f h e = ground (arith, e)
stored_at-modified clock path (g ∷ files) f h e = elim (Bool-cases (list_eq g.path path)) [
  | inl b ↦ ground (arith, h, e, b)
  | inr b ↦ stored_at-modified clock path files f (ground (arith, h)) (ground (arith, e, b))
]

module _ (E : Environment) where
  entry_of-ok :
      (files : List StoredFile) (clock mtime : ℕ) (path : Text)
      → all (λ f. leb f.modified clock) files ≡ true
      → clock ≤ mtime
      → is_stored files path ≡ true
      → check_entry E files mtime (entry_of E files path) ≡ ok tt
  unfolding check_entry
  entry_of-ok files clock mtime path old le there = elim (Option-cases (stored_at path files)) [
    | inl n ↦ ground (arith, there, n)
    | inr (f, n) ↦
        let before = stored_at-modified clock path files f old n in
        let hash = list_eq_refl (E.sha256_hex f.content) in ground (arith, n, before, le, hash)
  ]

  pub entries_ok :
      (files : List StoredFile) (clock mtime : ℕ) (paths : List Text)
      → all (λ f. leb f.modified clock) files ≡ true
      → clock ≤ mtime
      → all (is_stored files) paths ≡ true
      → check_entries E files mtime (map (entry_of E files) paths) ≡ ok tt
  unfolding check_entries
  entries_ok files clock mtime [] old le there = refl
  entries_ok files clock mtime (p ∷ paths) old le there =
      let first = entry_of-ok files clock mtime p old le (ground (arith, there)) in
      let rest = entries_ok files clock mtime paths old le (ground (arith, there)) in
      ground (arith, first, rest)

  map-entry_of :
      (files : List StoredFile) (paths : List Text)
      → map (λ e. e.path) (map (entry_of E files) paths) ≡ paths
  map-entry_of files [] = refl
  map-entry_of files (p ∷ paths) = ap (λ rest. p ∷ rest) (map-entry_of files paths)

  names_of_evidence :
      (files : List StoredFile)
      → all (λ f. not (is_control_name (name_of f.path))) files ≡ true
      → all (λ f. not (list_eq (name_of f.path) (codes "evidence-manifest.json"))) files ≡ true
  names_of_evidence [] h = refl
  names_of_evidence (f ∷ files) h = ground (arith, h, names_of_evidence files (ground (arith, h)))

  -- Where no evidence has the name of a control file, the inventory lists every file.
  pub inventory-paths :
      (d : Directory) (m : Option StoredManifest)
      → all (λ f. not (is_control_name (name_of f.path))) d.files ≡ true
      → all_paths E (record d { state = none; manifest = m }) ≡ map (λ e. e.path) (inventory E d)
  unfolding inventory
  inventory-paths d m h =
      let listed =
        select-all (λ f. not (list_eq (name_of f.path) (codes "evidence-manifest.json"))) d.files
          (names_of_evidence d.files h) in
      let kept = select-all (λ f. not (is_control_name (name_of f.path))) d.files h in
      ap (λ fs. sorted_paths (map (λ f. f.path) fs)) listed
      ∙ (ap (λ fs. sorted_paths (map (λ f. f.path) fs)) (sym kept) ∙ sym (map-entry_of d.files _))

  pub inventory_ok :
      (d : Directory) (clock mtime : ℕ)
      → all (λ f. not (is_control_name (name_of f.path))) d.files ≡ true
      → all (λ f. leb f.modified clock) d.files ≡ true
      → clock ≤ mtime
      → check_entries E d.files mtime (inventory E d) ≡ ok tt
  unfolding inventory
  inventory_ok d clock mtime h old le = entries_ok d.files clock mtime _ old le (
      all-sorted_paths (is_stored d.files) _ (
        rw (select-all (λ f. not (is_control_name (name_of f.path))) d.files h)
          (all_stored d.files)))
