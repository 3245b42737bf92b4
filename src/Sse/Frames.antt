-- ===== src/Sse/Frames.antt =====
-- src/llm_inference_systems/sse.py: line ends and frame boundaries, as `feed` meets them when a
-- stream goes on after a chunk.
use llm_inference_systems.Prelude.{
  ℕ, ◌≤◌, ◌≡◌, refl, ap, Bool, true, false, ◌&&◌, not, Option, none, some, [], ◌∷◌, ◌++◌, arith,
  length, ◌==◌, Bool-cases, inl, inr, Option-cases,
}
use llm_inference_systems.Sse.{Bytes, lf, cr, split_frame, replace_crlf}

-- No b"\r\n" in the bytes.
unfoldable pub avoids_crlf : Bytes → Bool
avoids_crlf [] = true
avoids_crlf (x ∷ []) = true
avoids_crlf (x ∷ y ∷ rest) = not (x == cr && y == lf) && avoids_crlf (y ∷ rest)

-- No b"\r\r\n" in the bytes.
unfoldable pub avoids_cr_crlf : Bytes → Bool
avoids_cr_crlf [] = true
avoids_cr_crlf (x ∷ []) = true
avoids_cr_crlf (x ∷ y ∷ []) = true
avoids_cr_crlf (x ∷ y ∷ z ∷ rest) =
    not (x == cr && (y == cr && z == lf)) && avoids_cr_crlf (y ∷ z ∷ rest)

replace_crlf-lf : (xs : Bytes) → replace_crlf (lf ∷ xs) ≡ lf ∷ replace_crlf xs
unfolding replace_crlf
replace_crlf-lf [] = refl
replace_crlf-lf (x ∷ xs) = refl

replace_crlf-kept :
    (x y : ℕ) (xs : Bytes)
    → (x == cr && y == lf) ≡ false
    → replace_crlf (x ∷ y ∷ xs) ≡ x ∷ replace_crlf (y ∷ xs)
unfolding replace_crlf
replace_crlf-kept x y xs h = ground arith

pub length-replace_crlf : (xs : Bytes) → length (replace_crlf xs) ≤ length xs
unfolding replace_crlf
length-replace_crlf [] = omega arith
length-replace_crlf (x ∷ []) = omega arith
length-replace_crlf (x ∷ y ∷ xs) =
    ground (arith, length-replace_crlf xs, length-replace_crlf (y ∷ xs))

pub replace_crlf_id : (xs : Bytes) → avoids_crlf xs ≡ true → replace_crlf xs ≡ xs
unfolding avoids_crlf replace_crlf
replace_crlf_id [] h = refl
replace_crlf_id (x ∷ []) h = refl
replace_crlf_id (x ∷ y ∷ xs) h = ground (arith, replace_crlf_id (y ∷ xs))

split_frame-boundary :
    (x y : ℕ) (xs : Bytes) → (x == lf && y == lf) ≡ true → split_frame (x ∷ y ∷ xs) ≡ some ([], xs)
unfolding split_frame
split_frame-boundary x y xs h = rw h

split_frame-kept :
    (x y : ℕ) (xs raw rest : Bytes)
    → (x == lf && y == lf) ≡ false
    → split_frame (y ∷ xs) ≡ some (raw, rest)
    → split_frame (x ∷ y ∷ xs) ≡ some (x ∷ raw, rest)
unfolding split_frame
split_frame-kept x y xs raw rest h e = rw h (rw e)

split_frame-none :
    (x y : ℕ) (xs : Bytes)
    → (x == lf && y == lf) ≡ false
    → split_frame (y ∷ xs) ≡ none
    → split_frame (x ∷ y ∷ xs) ≡ none
unfolding split_frame
split_frame-none x y xs h e = rw h (rw e)

-- How a frame boundary was found: at the head, or further on.
data SplitAt (x y : ℕ) (xs raw rest : Bytes) : Type 0 where
  here : (x == lf && y == lf) ≡ true → raw ≡ [] → rest ≡ xs → SplitAt x y xs raw rest
  later :
      (x == lf && y == lf) ≡ false
      → (tail : Bytes) → raw ≡ x ∷ tail
      → split_frame (y ∷ xs) ≡ some (tail, rest)
      → SplitAt x y xs raw rest

split_frame-SplitAt :
    (x y : ℕ) (xs raw rest : Bytes)
    → split_frame (x ∷ y ∷ xs) ≡ some (raw, rest)
    → SplitAt x y xs raw rest
split_frame-SplitAt x y xs raw rest h = elim (Bool-cases (x == lf && y == lf)) [
  | inl t ↦
      let e : ◌≡◌ {A = Option (Bytes × Bytes)} (some ([], xs)) (some (raw, rest)) =
        rw (split_frame-boundary x y xs t) at h in
      here t (ground arith) (ground arith)
  | inr k ↦ elim (Option-cases (split_frame (y ∷ xs))) [
    | inl e ↦ cc (split_frame-none x y xs k e)
    | inr ((tail, r), e) ↦
        let e' : ◌≡◌ {A = Option (Bytes × Bytes)} (some (x ∷ tail, r)) (some (raw, rest)) =
          rw (split_frame-kept x y xs tail r k e) at h in
        later k tail (ground arith) (ground arith)
  ]
]

pub split_frame-append :
    (xs ys : Bytes) {raw rest : Bytes}
    → split_frame xs ≡ some (raw, rest)
    → split_frame (xs ++ ys) ≡ some (raw, rest ++ ys)
split_frame-append [] ys h = unfold split_frame in cc
split_frame-append (x ∷ []) ys h = unfold split_frame in cc
split_frame-append (x ∷ y ∷ xs) ys {raw} {rest} h = elim (split_frame-SplitAt x y xs raw rest h) [
  | here t e f ↦ rw (e, f) (split_frame-boundary x y (xs ++ ys) t)
  | later k tail e s ↦
      rw e (split_frame-kept x y (xs ++ ys) tail (rest ++ ys) k (split_frame-append (y ∷ xs) ys s))
]

head_kept : (x y : ℕ) (xs : Bytes) → avoids_crlf (x ∷ y ∷ xs) ≡ true → (x == cr && y == lf) ≡ false
unfolding avoids_crlf
head_kept x y xs h = ground arith

tail_avoids : (x y : ℕ) (xs : Bytes) → avoids_crlf (x ∷ y ∷ xs) ≡ true → avoids_crlf (y ∷ xs) ≡ true
unfolding avoids_crlf
tail_avoids x y xs h = ground arith

two_lf :
    (x y : ℕ) (xs : Bytes)
    → (x == lf && y == lf) ≡ true
    → split_frame (replace_crlf (x ∷ y ∷ xs)) ≡ some ([], replace_crlf xs)
two_lf x y xs h =
    let ex : x ≡ lf = ground arith in
    let ey : y ≡ lf = ground arith in
    rw (ex, ey, replace_crlf-lf (lf ∷ xs), replace_crlf-lf xs)
      (split_frame-boundary lf lf (replace_crlf xs) refl)

-- A buffer that has been normalised keeps its boundary, and its frame, when more bytes arrive.
pub split_frame-replace_crlf :
    (xs ys raw rest : Bytes)
    → avoids_crlf xs ≡ true
    → split_frame xs ≡ some (raw, rest)
    → split_frame (replace_crlf (xs ++ ys)) ≡ some (raw, replace_crlf (rest ++ ys))
split_frame-replace_crlf [] ys raw rest a h = unfold split_frame in cc
split_frame-replace_crlf (x ∷ []) ys raw rest a h = unfold split_frame in cc
split_frame-replace_crlf (x ∷ y ∷ []) ys raw rest a h =
    elim (split_frame-SplitAt x y [] raw rest h) [
      | here t e f ↦ rw (e, f) (two_lf x y ys t)
      | later k tail e s ↦ unfold split_frame in cc
    ]
split_frame-replace_crlf (x ∷ y ∷ z ∷ xs) ys raw rest a h =
    elim (split_frame-SplitAt x y (z ∷ xs) raw rest h) [
      | here t e f ↦ rw (e, f) (two_lf x y (z ∷ xs ++ ys) t)
      | later k tail e s ↦
          rw
            (
              e,
              replace_crlf-kept x y (z ∷ xs ++ ys) (head_kept x y (z ∷ xs) a),
              replace_crlf-kept y z (xs ++ ys) (head_kept y z xs (tail_avoids x y (z ∷ xs) a)),
            )
            (split_frame-kept x y (replace_crlf (z ∷ xs ++ ys)) tail (replace_crlf (rest ++ ys)) k (
              rw
                (← replace_crlf-kept y z (xs ++ ys) (head_kept y z xs (tail_avoids x y (z ∷ xs) a)))
                (split_frame-replace_crlf (y ∷ z ∷ xs) ys tail rest (tail_avoids x y (z ∷ xs) a)
                  s)))
    ]

avoids_cr_crlf_tail :
    (x : ℕ) (xs : Bytes) → avoids_cr_crlf (x ∷ xs) ≡ true → avoids_cr_crlf xs ≡ true
unfolding avoids_cr_crlf
avoids_cr_crlf_tail x [] h = refl
avoids_cr_crlf_tail x (y ∷ []) h = refl
avoids_cr_crlf_tail x (y ∷ z ∷ xs) h = ground arith

replace_crlf_after :
    (x y : ℕ) (xs ys : Bytes)
    → (x == cr && y == lf) ≡ false
    → avoids_cr_crlf (x ∷ y ∷ xs ++ ys) ≡ true
    → replace_crlf (x ∷ replace_crlf (y ∷ xs) ++ ys)
      ≡ x ∷ replace_crlf (replace_crlf (y ∷ xs) ++ ys)
replace_crlf_after x y [] ys k h = unfold replace_crlf in rw k
replace_crlf_after x y (z ∷ xs) ys k h = elim (Bool-cases (y == cr && z == lf)) [
  | inl t ↦ rw (replaced t) (replace_crlf-kept x lf (replace_crlf xs ++ ys) (not_cr t))
  | inr f ↦ rw (replace_crlf-kept y z xs f) (replace_crlf-kept x y (replace_crlf (z ∷ xs) ++ ys) k)
]
  where
    replaced : (y == cr && z == lf) ≡ true → replace_crlf (y ∷ z ∷ xs) ≡ lf ∷ replace_crlf xs
    replaced t = unfold replace_crlf in rw t

    not_cr : (y == cr && z == lf) ≡ true → (x == cr && lf == lf) ≡ false
    not_cr t = unfold avoids_cr_crlf in ground arith

-- Normalising a part first changes nothing, if no b"\r\r\n" occurs.
pub replace_crlf-replace_crlf :
    (xs ys : Bytes)
    → avoids_cr_crlf (xs ++ ys) ≡ true
    → replace_crlf (replace_crlf xs ++ ys) ≡ replace_crlf (xs ++ ys)
replace_crlf-replace_crlf [] ys h = unfold replace_crlf in refl
replace_crlf-replace_crlf (x ∷ []) ys h = unfold replace_crlf in refl
replace_crlf-replace_crlf (x ∷ y ∷ xs) ys h = elim (Bool-cases (x == cr && y == lf)) [
  | inl t ↦
      rw (replaced t xs, replaced t (xs ++ ys), replace_crlf-lf (replace_crlf xs ++ ys))
        (ap (λ (l : Bytes). lf ∷ l)
          (replace_crlf-replace_crlf xs ys
            (avoids_cr_crlf_tail y (xs ++ ys) (avoids_cr_crlf_tail x (y ∷ xs ++ ys) h))))
  | inr k ↦
      rw
        (
          replace_crlf-kept x y xs k,
          replace_crlf-kept x y (xs ++ ys) k,
          replace_crlf_after x y xs ys k h,
        )
        (ap (λ (l : Bytes). x ∷ l)
          (replace_crlf-replace_crlf (y ∷ xs) ys (avoids_cr_crlf_tail x (y ∷ xs ++ ys) h)))
]
  where
    replaced :
        (x == cr && y == lf) ≡ true → (l : Bytes) → replace_crlf (x ∷ y ∷ l) ≡ lf ∷ replace_crlf l
    replaced t l = unfold replace_crlf in rw t

starts_crlf : Bytes → Bool
starts_crlf [] = false
starts_crlf (x ∷ []) = false
starts_crlf (x ∷ y ∷ xs) = x == cr && y == lf

avoids_cr_crlf-cons :
    (x : ℕ) (xs : Bytes)
    → avoids_cr_crlf (x ∷ xs) ≡ (not (x == cr && starts_crlf xs) && avoids_cr_crlf xs)
unfolding avoids_cr_crlf starts_crlf
avoids_cr_crlf-cons x [] = ground arith
avoids_cr_crlf-cons x (y ∷ []) = ground arith
avoids_cr_crlf-cons x (y ∷ z ∷ xs) = ground arith

starts_crlf-replace_crlf :
    (xs ys : Bytes)
    → avoids_cr_crlf (xs ++ ys) ≡ true
    → starts_crlf (replace_crlf xs ++ ys) ≡ true
    → starts_crlf (xs ++ ys) ≡ true
unfolding avoids_cr_crlf starts_crlf replace_crlf
starts_crlf-replace_crlf [] ys h s = s
starts_crlf-replace_crlf (x ∷ []) ys h s = s
starts_crlf-replace_crlf (x ∷ y ∷ []) ys h s = ground arith
starts_crlf-replace_crlf (x ∷ y ∷ z ∷ xs) ys h s = ground arith

pub avoids_cr_crlf-replace_crlf :
    (xs ys : Bytes)
    → avoids_cr_crlf (xs ++ ys) ≡ true
    → avoids_cr_crlf (replace_crlf xs ++ ys) ≡ true
avoids_cr_crlf-replace_crlf [] ys h = unfold replace_crlf in h
avoids_cr_crlf-replace_crlf (x ∷ []) ys h = unfold replace_crlf in h
avoids_cr_crlf-replace_crlf (x ∷ y ∷ xs) ys h = elim (Bool-cases (x == cr && y == lf)) [
  | inl t ↦
      rw (replaced t, avoids_cr_crlf-cons lf (replace_crlf xs ++ ys))
        (avoids_cr_crlf-replace_crlf xs ys
          (avoids_cr_crlf_tail y (xs ++ ys) (avoids_cr_crlf_tail x (y ∷ xs ++ ys) h)))
  | inr k ↦ rw (replace_crlf-kept x y xs k) (
      ground (
        arith,
        avoids_cr_crlf-cons x (replace_crlf (y ∷ xs) ++ ys),
        avoids_cr_crlf-cons x (y ∷ xs ++ ys),
        starts_crlf-replace_crlf (y ∷ xs) ys,
        avoids_cr_crlf-replace_crlf (y ∷ xs) ys,
      ))
]
  where
    replaced : (x == cr && y == lf) ≡ true → replace_crlf (x ∷ y ∷ xs) ≡ lf ∷ replace_crlf xs
    replaced t = unfold replace_crlf in rw t

starts_lf : Bytes → Bool
starts_lf [] = false
starts_lf (x ∷ xs) = x == lf

avoids_crlf-cons :
    (x : ℕ) (xs : Bytes) → avoids_crlf (x ∷ xs) ≡ (not (x == cr && starts_lf xs) && avoids_crlf xs)
unfolding avoids_crlf starts_lf
avoids_crlf-cons x [] = ground arith
avoids_crlf-cons x (y ∷ xs) = ground arith

starts_lf-replace_crlf :
    (x y : ℕ) (xs : Bytes)
    → x ≡ cr
    → (x == cr && y == lf) ≡ false
    → avoids_cr_crlf (x ∷ y ∷ xs) ≡ true
    → starts_lf (replace_crlf (y ∷ xs)) ≡ false
unfolding avoids_cr_crlf starts_lf replace_crlf
starts_lf-replace_crlf x y [] c k h = ground arith
starts_lf-replace_crlf x y (z ∷ xs) c k h = ground arith

pub avoids_crlf-replace_crlf :
    (xs : Bytes) → avoids_cr_crlf xs ≡ true → avoids_crlf (replace_crlf xs) ≡ true
avoids_crlf-replace_crlf [] h = unfold avoids_crlf replace_crlf in refl
avoids_crlf-replace_crlf (x ∷ []) h = unfold avoids_crlf replace_crlf in refl
avoids_crlf-replace_crlf (x ∷ y ∷ xs) h = elim (Bool-cases (x == cr && y == lf)) [
  | inl t ↦
      rw (replaced t, avoids_crlf-cons lf (replace_crlf xs))
        (avoids_crlf-replace_crlf xs (avoids_cr_crlf_tail y xs (avoids_cr_crlf_tail x (y ∷ xs) h)))
  | inr k ↦ rw (replace_crlf-kept x y xs k) (
      ground (
        arith,
        avoids_crlf-cons x (replace_crlf (y ∷ xs)),
        starts_lf-replace_crlf x y xs,
        avoids_cr_crlf_tail x (y ∷ xs),
        avoids_crlf-replace_crlf (y ∷ xs),
      ))
]
  where
    replaced : (x == cr && y == lf) ≡ true → replace_crlf (x ∷ y ∷ xs) ≡ lf ∷ replace_crlf xs
    replaced t = unfold replace_crlf in rw t

pub avoids_crlf_suffix : (xs ys : Bytes) → avoids_crlf (xs ++ ys) ≡ true → avoids_crlf ys ≡ true
avoids_crlf_suffix [] ys h = h
avoids_crlf_suffix (x ∷ xs) ys h = avoids_crlf_suffix xs ys (drop_head (xs ++ ys) h)
  where
    drop_head : (l : Bytes) → avoids_crlf (x ∷ l) ≡ true → avoids_crlf l ≡ true
    drop_head [] e = unfold avoids_crlf in refl
    drop_head (y ∷ l) e = tail_avoids x y l e

pub avoids_cr_crlf_suffix :
    (xs ys : Bytes) → avoids_cr_crlf (xs ++ ys) ≡ true → avoids_cr_crlf ys ≡ true
avoids_cr_crlf_suffix [] ys h = h
avoids_cr_crlf_suffix (x ∷ xs) ys h =
    avoids_cr_crlf_suffix xs ys (avoids_cr_crlf_tail x (xs ++ ys) h)

-- What follows a boundary is a proper suffix.
pub split_frame_suffix :
    (xs raw rest : Bytes) → split_frame xs ≡ some (raw, rest) → xs ≡ raw ++ lf ∷ lf ∷ rest
split_frame_suffix [] raw rest h = unfold split_frame in cc
split_frame_suffix (x ∷ []) raw rest h = unfold split_frame in cc
split_frame_suffix (x ∷ y ∷ xs) raw rest h = elim (split_frame-SplitAt x y xs raw rest h) [
  | here t e f ↦ ground arith
  | later k tail e s ↦ rw e (ap (λ (l : Bytes). x ∷ l) (split_frame_suffix (y ∷ xs) tail rest s))
]

pub avoids_cr_crlf_prefix :
    (xs ys : Bytes) → avoids_cr_crlf (xs ++ ys) ≡ true → avoids_cr_crlf xs ≡ true
unfolding avoids_cr_crlf
avoids_cr_crlf_prefix [] ys h = refl
avoids_cr_crlf_prefix (x ∷ []) ys h = refl
avoids_cr_crlf_prefix (x ∷ y ∷ []) ys h = refl
avoids_cr_crlf_prefix (x ∷ y ∷ z ∷ xs) ys h = ground (arith, avoids_cr_crlf_prefix (y ∷ z ∷ xs) ys)
