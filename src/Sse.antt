-- ===== src/Sse.antt =====
-- src/llm_inference_systems/sse.py: the incremental parser of server-sent events. The parser object
-- is a record, and each method is an action that returns or raises.
pub mod Codec
pub mod Chunks
pub mod Frames
pub mod Drain
pub mod Done
mod Tests
pub use Codec.{Bytes, Text, lf, cr}
unfoldable pub use Codec.{
  replace_crlf, split_frame, decode_utf8, contains, split_lines, join_lines, lstrip_spaces,
  after_prefix, drop_one_space,
}
use llm_inference_systems.Prelude.{
  ℕ, zero, suc, ◌+◌, ◌≡◌, refl, Bool, true, false, Option, none, some, List, [], ◌∷◌, ◌++◌, arith,
  ltb, ◌==◌, if◌then◌else◌, codes, length, concat, list_eq, Result, ok, err, Outcome, returned,
  raised, Action, ◌>>=◌, ◌>>◌, pure, raise, gets, lift, modify, raise_if, all, ◌*◌,
}

pub data SseProtocolError : Type 0 where
  buffer_limit_exceeded invalid_utf8 carriage_return unsupported_field : SseProtocolError
  duplicate_done data_after_done incomplete_final_frame closed_without_done : SseProtocolError

pub data FrameKind : Type 0 where
  comment data_event done : FrameKind

pub record SseFrame : Type 0 where
  pub kind : FrameKind
  pub payload : Option Text
  pub comments : List Text

pub record Parser : Type 0 where
  pub buffer : Bytes
  pub is_done : Bool

abbrev pub max_sse_buffer_bytes : ℕ
max_sse_buffer_bytes = 64 * 1024

unfoldable pub init : Parser
init = record { buffer = []; is_done = false }

-- The two lists that the loop over the lines of a frame fills.
pub record Fields : Type 0 where
  pub data_lines : List Text
  pub comments : List Text

abbrev add_comment : Text → Fields → Fields
add_comment line fields = record fields { comments = lstrip_spaces line ∷ fields.comments }

abbrev add_data : Text → Fields → Fields
add_data line fields = record fields { data_lines = line ∷ fields.data_lines }

-- One line of a frame, put before what the later lines gave.
unfoldable pub read_line : Text → Fields → Result SseProtocolError Fields
read_line line fields = elim (after_prefix (codes ":") line) [
  | some text ↦ ok (add_comment text fields)
  | none ↦ elim (list_eq line (codes "data")) [
    | true ↦ ok (add_data [] fields)
    | false ↦ elim (after_prefix (codes "data:") line) [
      | some value ↦ ok (add_data (drop_one_space value) fields)
      | none ↦ err unsupported_field
    ]
  ]
]

abbrev read_before : Text → Result SseProtocolError Fields → Result SseProtocolError Fields
read_before line (ok fields) = read_line line fields
read_before line (err e) = err e

-- Every error of a line is the same, so the order in which they are met does not show.
unfoldable pub read_lines : List Text → Result SseProtocolError Fields
unfolding read_line
read_lines [] = ok (record { data_lines = []; comments = [] })
read_lines (line ∷ lines) = read_before line (read_lines lines)

abbrev frame : FrameKind → Option Text → Fields → SseFrame
frame kind payload fields = record { kind = kind; payload = payload; comments = fields.comments }

-- What `_parse_frame` makes of the lines it read, and the flag of the end marker.
unfoldable pub accept_fields : Fields → Action SseProtocolError Parser SseFrame
accept_fields fields p = elim fields.data_lines [
  | [] ↦ returned (frame comment none fields) p
  | line ∷ lines ↦
      let payload = join_lines (line ∷ lines) in
      if list_eq payload (codes "[DONE]")
      then (if p.is_done
          then raised duplicate_done p
          else returned (frame done (some payload) fields) (record p { is_done = true }))
      else if p.is_done
      then raised data_after_done p
      else returned (frame data_event (some payload) fields) p
]

abbrev decoded_text : Option Text → Result SseProtocolError Text
decoded_text none = err invalid_utf8
decoded_text (some text) = if contains cr text then err carriage_return else ok text

unfoldable pub parse_frame : Bytes → Action SseProtocolError Parser SseFrame
unfolding accept_fields
parse_frame raw = do
  text ← lift (decoded_text (decode_utf8 raw))
  fields ← lift (read_lines (split_lines text))
  accept_fields fields

abbrev nonempty : Bytes → Bool
nonempty [] = false
nonempty (_ ∷ _) = true

-- `while b"\n\n" in self._buffer`. Each round takes two bytes off the buffer at least, so fuel of
-- the buffer's length is enough (Sse/Frames).
unfoldable pub drain : ℕ → List SseFrame → Action SseProtocolError Parser (List SseFrame)
drain zero frames p = returned frames p
drain (suc fuel) frames p = elim (split_frame p.buffer) [
  | none ↦ returned frames p
  | some (raw, rest) ↦
      let p' = record p { buffer = rest } in
      elim (nonempty raw) [
        | false ↦ drain fuel frames p'
        | true ↦ elim (parse_frame raw p') [
          | raised e q ↦ raised e q
          | returned f q ↦ drain fuel (frames ++ f ∷ []) q
        ]
      ]
]

unfoldable pub feed : Bytes → Action SseProtocolError Parser (List SseFrame)
feed [] p = returned [] p
feed (b ∷ chunk) p =
    let p' = record p { buffer = p.buffer ++ b ∷ chunk } in
    if ltb max_sse_buffer_bytes (length p'.buffer)
    then raised buffer_limit_exceeded p'
    else (let q = record p' { buffer = replace_crlf p'.buffer } in drain (length q.buffer) [] q)

abbrev pub is_lf : ℕ → Bool
is_lf b = b == lf

unfoldable pub finalize : Parser → Result SseProtocolError (Unit {0})
finalize p =
    if all is_lf (replace_crlf p.buffer)
    then (if p.is_done then ok tt else err closed_without_done)
    else err incomplete_final_frame
