-- ===== src/Prelude/Lists.antt =====
-- Lists measured and compared by native numbers, under the library's names.
use Prim.Native.Nat.{ℕ, suc, ◌+◌}
use Prim.Native.Char.{code}
use Prim.Native.String.{String}
use mathlib.Core.Path.{◌≡◌, refl}
use mathlib.Core.Bool.{Bool, true, false, ◌&&◌, ◌||◌, not}
use mathlib.Core.List.{List, [], ◌∷◌, ◌++◌}
use native.Mathlib.Omega.{arith}
use llm_inference_systems.Prelude.Tests.{◌==◌, leb, if◌then◌else◌}

-- The code points of a text.
abbrev pub codes : String → List ℕ
codes String.[] = []
codes (String.◌∷◌ c s) = code c ∷ codes s

module _ {ℓ} {A : Type ℓ} where
  abbrev pub length : List A → ℕ
  length [] = 0
  length (x ∷ xs) = suc (length xs)

  pub length-append : (xs ys : List A) → length (xs ++ ys) ≡ length xs + length ys
  length-append [] ys = omega arith
  length-append (x ∷ xs) ys = omega (arith, length-append xs ys)

  -- all(test(x) for x in xs) and any(test(x) for x in xs).
  abbrev pub all : (A → Bool) → List A → Bool
  all test [] = true
  all test (x ∷ xs) = test x && all test xs

  abbrev pub any : (A → Bool) → List A → Bool
  any test [] = false
  any test (x ∷ xs) = test x || any test xs

  -- [x for x in xs if test(x)]
  abbrev pub select : (A → Bool) → List A → List A
  select test [] = []
  select test (x ∷ xs) = let rest = select test xs in if test x then x ∷ rest else rest

  abbrev pub concat : List (List A) → List A
  concat [] = []
  concat (xs ∷ rest) = xs ++ concat rest

-- Equality of two lists of numbers: texts, byte strings and token ids.
abbrev pub list_eq : List ℕ → List ℕ → Bool
list_eq [] [] = true
list_eq [] (y ∷ ys) = false
list_eq (x ∷ xs) [] = false
list_eq (x ∷ xs) (y ∷ ys) = x == y && list_eq xs ys

pub list_eq-eq : (xs ys : List ℕ) → list_eq xs ys ≡ true → xs ≡ ys
list_eq-eq [] [] h = refl
list_eq-eq [] (y ∷ ys) h = ground arith
list_eq-eq (x ∷ xs) [] h = ground arith
list_eq-eq (x ∷ xs) (y ∷ ys) h = ground (arith, list_eq-eq xs ys)

pub list_eq_refl : (xs : List ℕ) → list_eq xs xs ≡ true
list_eq_refl [] = refl
list_eq_refl (x ∷ xs) = ground (arith, list_eq_refl xs)

abbrev pub texts_eq : List (List ℕ) → List (List ℕ) → Bool
texts_eq [] [] = true
texts_eq (x ∷ xs) (y ∷ ys) = list_eq x y && texts_eq xs ys
texts_eq _ _ = false

pub all-append {ℓ} :
    {A : Type ℓ} (test : A → Bool) (xs ys : List A)
    → all test (xs ++ ys) ≡ (all test xs && all test ys)
all-append test [] ys = refl
all-append test (x ∷ xs) ys = ground (arith, all-append test xs ys)

pub any-all {ℓ} :
    {A : Type ℓ} (test : A → Bool) (xs : List A)
    → any (λ x. not (test x)) xs ≡ false
    → all test xs ≡ true
any-all test [] h = refl
any-all test (x ∷ xs) h = ground (arith, any-all test xs)

abbrev pub sum : List ℕ → ℕ
sum [] = 0
sum (x ∷ xs) = x + sum xs

-- itertools.pairwise
abbrev pub pairs {ℓ} : {A : Type ℓ} → List A → List (A × A)
pairs [] = []
pairs (x ∷ []) = []
pairs (x ∷ y ∷ rest) = (x, y) ∷ pairs (y ∷ rest)

abbrev pub pairs_hold {ℓ} : {A : Type ℓ} → (A → A → Bool) → List A → Bool
pairs_hold test [] = true
pairs_hold test (x ∷ []) = true
pairs_hold test (x ∷ y ∷ rest) = test x y && pairs_hold test (y ∷ rest)

-- values == tuple(sorted(values)), for integers.
abbrev pub is_sorted : List ℕ → Bool
is_sorted = pairs_hold leb

-- text.startswith(prefix)
abbrev pub is_prefix : List ℕ → List ℕ → Bool
is_prefix [] text = true
is_prefix (c ∷ prefix) [] = false
is_prefix (c ∷ prefix) (x ∷ text) = c == x && is_prefix prefix text

-- part in text
abbrev pub occurs_in : List ℕ → List ℕ → Bool
occurs_in part [] = is_prefix part []
occurs_in part (x ∷ text) = is_prefix part (x ∷ text) || occurs_in part text

-- value in values, and len(values) == len(set(values)), by a test of equality.
abbrev pub mem {ℓ} : {A : Type ℓ} → (A → A → Bool) → A → List A → Bool
mem eq x [] = false
mem eq x (y ∷ ys) = eq x y || mem eq x ys

abbrev pub distinct {ℓ} : {A : Type ℓ} → (A → A → Bool) → List A → Bool
distinct eq [] = true
distinct eq (x ∷ xs) = not (mem eq x xs) && distinct eq xs
