-- ===== src/Bundle/Paths.antt =====
-- src/llm_inference_systems/stage2_bundle.py: _safe_relative, and the parts of a relative path that the
-- code asks for (pathlib.PurePosixPath of a text that is a normalized relative path).
use llm_inference_systems.Prelude.{
  ℕ, Bool, ◌&&◌, not, Option, none, some, List, [], ◌∷◌, ◌==◌, if◌then◌else◌, is_some, codes,
  length, all, list_eq,
}
use llm_inference_systems.Sse.Codec.{Text}

-- The pieces between the characters `c`.
unfoldable pub split_at : ℕ → Text → List Text
split_at c [] = [] ∷ []
split_at c (x ∷ text) =
    let rest = split_at c text in
    if x == c
    then [] ∷ rest
    else elim rest [ [] ↦ (x ∷ []) ∷ [] | part ∷ parts ↦ (x ∷ part) ∷ parts ]

abbrev pub parts_of : Text → List Text
parts_of = split_at 47

abbrev is_plain_part : Text → Bool
is_plain_part part =
    not (list_eq part []) && (not (list_eq part (codes ".")) && not (list_eq part (codes "..")))

-- Relative, normalized, not empty, and without a part `..`.
unfoldable pub is_safe_relative : Text → Bool
is_safe_relative path = all is_plain_part (parts_of path)

-- path.parts[0] and path.name
abbrev pub first_part : Text → Text
first_part path = elim (parts_of path) [ [] ↦ [] | part ∷ rest ↦ part ]

abbrev last_text : Text → List Text → Text
last_text x [] = x
last_text x (y ∷ ys) = last_text y ys

unfoldable pub name_of : Text → Text
name_of path = elim (parts_of path) [ [] ↦ [] | part ∷ rest ↦ last_text part rest ]

-- PurePath.suffix of a name: from its last dot on, if the dot is neither its first nor last character.
abbrev suffix_from : Text → Option Text
suffix_from [] = none
suffix_from (x ∷ text) =
    let later = suffix_from text in
    if is_some later then later else if x == 46 then some (x ∷ text) else none

unfoldable pub suffix_of : Text → Text
suffix_of path = elim (name_of path) [
  | [] ↦ []
  | x ∷ name ↦ elim (suffix_from name) [
    | none ↦ []
    | some suffix ↦ if length suffix == 1 then [] else suffix
  ]
]
