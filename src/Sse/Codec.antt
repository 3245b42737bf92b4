-- ===== src/Sse/Codec.antt =====
-- The bytes and texts that sse.py works on: Python's `bytes.replace`, `bytes.split`,
-- `bytes.decode`, `str.split`, `str.lstrip`, `str.join` at the arguments that it gives them.
-- A byte string and a text are lists of numbers (bytes, code points).
use llm_inference_systems.Prelude.{
  ℕ, ◌+◌, ◌-◌, ◌*◌, Bool, false, ◌&&◌, ◌||◌, Option, none, some, List, [], ◌∷◌, ◌++◌, leb, ◌==◌,
  if◌then◌else◌,
}

abbrev pub Bytes : Type 0
Bytes = List ℕ

abbrev pub Text : Type 0
Text = List ℕ

abbrev pub lf : ℕ
lf = 10

abbrev pub cr : ℕ
cr = 13

-- buffer.replace(b"\r\n", b"\n"): one pass from the left, without overlaps.
unfoldable pub replace_crlf : Bytes → Bytes
replace_crlf [] = []
replace_crlf (x ∷ []) = x ∷ []
replace_crlf (x ∷ y ∷ rest) =
    let replaced = lf ∷ replace_crlf rest in
    let kept = x ∷ replace_crlf (y ∷ rest) in if x == cr && y == lf then replaced else kept

abbrev prepend : ℕ → Option (Bytes × Bytes) → Option (Bytes × Bytes)
prepend x none = none
prepend x (some (raw, rest)) = some (x ∷ raw, rest)

-- buffer.split(b"\n\n", 1), and `none` where b"\n\n" is not in the buffer.
unfoldable pub split_frame : Bytes → Option (Bytes × Bytes)
split_frame [] = none
split_frame (x ∷ []) = none
split_frame (x ∷ y ∷ rest) =
    if x == lf && y == lf then some ([], rest) else prepend x (split_frame (y ∷ rest))

-- What a UTF-8 decoder still expects: how many continuation bytes, the range of the next one (the
-- first is restricted against overlong forms and surrogates), and the bits read so far.
pub record Pending : Type 0 where
  pub needed : ℕ
  pub low : ℕ
  pub high : ℕ
  pub bits : ℕ

abbrev pub decoded : Pending
decoded = record { needed = 0; low = 0x80; high = 0xbf; bits = 0 }

abbrev expect : ℕ → ℕ → ℕ → ℕ → Option (Option ℕ × Pending)
expect needed low high bits =
    some (none, record { needed = needed; low = low; high = high; bits = bits })

-- The first byte of a character.
lead : ℕ → Option (Option ℕ × Pending)
lead b =
    if leb b 0x7f
    then some (some b, decoded)
    else if leb 0xc2 b && leb b 0xdf
    then expect 1 0x80 0xbf (b - 0xc0)
    else if b == 0xe0
    then expect 2 0xa0 0xbf 0
    else if b == 0xed
    then expect 2 0x80 0x9f 13
    else if leb 0xe1 b && leb b 0xef
    then expect 2 0x80 0xbf (b - 0xe0)
    else if b == 0xf0
    then expect 3 0x90 0xbf 0
    else if b == 0xf4
    then expect 3 0x80 0x8f 4
    else if leb 0xf1 b && leb b 0xf3
    then expect 3 0x80 0xbf (b - 0xf0)
    else none

-- A continuation byte; the last one completes the character.
continuation : Pending → ℕ → Option (Option ℕ × Pending)
continuation p b =
    let bits : ℕ = p.bits * 64 + (b - 0x80) in
    if leb p.low b && leb b p.high
    then (if p.needed == 1 then some (some bits, decoded) else expect (p.needed - 1) 0x80 0xbf bits)
    else none

abbrev emit : Option ℕ → Text → Text
emit none text = text
emit (some c) text = c ∷ text

decode_from : Pending → Bytes → Option Text
unfolding lead continuation
decode_from p [] = if p.needed == 0 then some [] else none
decode_from p (b ∷ rest) = elim (if p.needed == 0 then lead b else continuation p b) [
  | none ↦ none
  | some (c, p') ↦ elim (decode_from p' rest) [ none ↦ none | some text ↦ some (emit c text) ]
]

-- raw_frame.decode("utf-8"); `none` for UnicodeDecodeError.
unfoldable pub decode_utf8 : Bytes → Option Text
unfolding decode_from
decode_utf8 = decode_from decoded

-- c in text
unfoldable pub contains : ℕ → Text → Bool
contains c [] = false
contains c (x ∷ rest) = x == c || contains c rest

abbrev add_to_line : ℕ → List Text → List Text
add_to_line x [] = (x ∷ []) ∷ []
add_to_line x (line ∷ lines) = (x ∷ line) ∷ lines

-- text.split("\n")
unfoldable pub split_lines : Text → List Text
split_lines [] = [] ∷ []
split_lines (x ∷ rest) =
    let lines = split_lines rest in if x == lf then [] ∷ lines else add_to_line x lines

-- "\n".join(lines)
unfoldable pub join_lines : List Text → Text
join_lines [] = []
join_lines (line ∷ []) = line
join_lines (line ∷ next ∷ lines) = line ++ lf ∷ join_lines (next ∷ lines)

-- text.lstrip(" ")
unfoldable pub lstrip_spaces : Text → Text
lstrip_spaces [] = []
lstrip_spaces (c ∷ rest) =
    let stripped = lstrip_spaces rest in if c == 32 then stripped else c ∷ rest

-- The rest of `text` after `prefix`, where it starts with it.
unfoldable pub after_prefix : Text → Text → Option Text
after_prefix [] text = some text
after_prefix (c ∷ prefix) [] = none
after_prefix (c ∷ prefix) (x ∷ text) = if c == x then after_prefix prefix text else none

-- value[1:] if value.startswith(" ") else value
unfoldable pub drop_one_space : Text → Text
drop_one_space [] = []
drop_one_space (c ∷ rest) = if c == 32 then rest else c ∷ rest
