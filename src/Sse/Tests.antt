-- ===== src/Sse/Tests.antt =====
-- src/llm_inference_systems/sse.py: runs of the parser, and the theorems at concrete bodies.
use llm_inference_systems.Sse.Codec.{
  replace_crlf, decode_utf8, contains, split_lines, after_prefix, join_lines, drop_one_space,
  lstrip_spaces,
}
use llm_inference_systems.Prelude.{
  ◌≤◌, ◌≡◌, refl, true, false, none, some, List, [], ◌∷◌, ◌++◌, arith, codes, err, returned, view,
}
use llm_inference_systems.Sse.{
  Bytes, Parser, SseFrame, carriage_return, init, feed, finalize, split_frame, comment, data_event,
  done, max_sse_buffer_bytes, drain, parse_frame, read_lines,
}
use llm_inference_systems.Sse.Frames.{avoids_cr_crlf, avoids_crlf}
use llm_inference_systems.Sse.Chunks.{feed_all, feed_all-concat, IsBetweenCalls}
use llm_inference_systems.Sse.Done.{
  replay, feed-replay, feed-drained, EndsWithDone, accepted-EndsWithDone,
}

abbrev crlf : Bytes
crlf = 13 ∷ 10 ∷ []

abbrev first_half : Bytes
first_half = codes ": hi" ++ crlf ++ crlf ++ codes "data: {" ++ 13 ∷ []

abbrev second_half : Bytes
second_half = 10 ∷ codes "data: }" ++ crlf ++ crlf ++ codes "data: [DONE]" ++ 10 ∷ 10 ∷ []

abbrev frames_seen : List SseFrame
frames_seen =
    (record { kind = comment; payload = none; comments = codes "hi" ∷ [] })
    ∷ (record { kind = data_event; payload = some (codes "{" ++ 10 ∷ codes "}"); comments = [] })
    ∷ (record { kind = done; payload = some (codes "[DONE]"); comments = [] })
    ∷ []

abbrev empty_done : Parser
empty_done = record { buffer = []; is_done = true }

runs : feed_all (first_half ∷ second_half ∷ []) init ≡ returned frames_seen empty_done
unfolding feed_all feed init drain replace_crlf split_frame parse_frame decode_utf8 contains
    read_lines split_lines after_prefix join_lines drop_one_space lstrip_spaces
runs = refl

abbrev twice_cr : Bytes
twice_cr = codes "data: a" ++ 13 ∷ 13 ∷ 10 ∷ []

-- b"\r\r\n" is an error in one chunk, and a frame when the next line break comes in another chunk.
cr_crlf_whole : view (feed (twice_cr ++ 10 ∷ []) init) ≡ err carriage_return
unfolding feed init drain replace_crlf split_frame parse_frame decode_utf8 contains
cr_crlf_whole = refl

cr_crlf_cut :
    feed_all (twice_cr ∷ (10 ∷ []) ∷ []) init
    ≡ returned ((record { kind = data_event; payload = some (codes "a"); comments = [] }) ∷ []) init
unfolding feed_all feed init drain replace_crlf split_frame parse_frame decode_utf8 contains
    read_lines split_lines after_prefix join_lines drop_one_space
cr_crlf_cut = refl

init-IsBetweenCalls : IsBetweenCalls init
unfolding init split_frame avoids_crlf
init-IsBetweenCalls = record { normal = refl; drained = refl }

feed_all-concat_example :
    view (feed_all (first_half ∷ second_half ∷ []) init)
    ≡ view (feed (first_half ++ second_half ++ []) init)
unfolding init avoids_cr_crlf
feed_all-concat_example =
    feed_all-concat (first_half ∷ second_half ∷ []) init init-IsBetweenCalls refl (omega arith)

whole_run : feed (first_half ++ second_half) init ≡ returned frames_seen empty_done
unfolding feed init drain replace_crlf split_frame parse_frame decode_utf8 contains read_lines
    split_lines after_prefix join_lines drop_one_space lstrip_spaces
whole_run = refl

feed-replay_example : replay (some false) frames_seen ≡ some true
unfolding init
feed-replay_example = feed-replay (first_half ++ second_half) init empty_done frames_seen whole_run

feed-drained_example : (split_frame [] ≡ none) × (0 ≤ max_sse_buffer_bytes)
unfolding init split_frame
feed-drained_example =
    feed-drained (first_half ++ second_half) init empty_done frames_seen refl (omega arith)
      whole_run

accepted-EndsWithDone_example : EndsWithDone frames_seen
unfolding finalize replace_crlf
accepted-EndsWithDone_example =
    accepted-EndsWithDone (first_half ∷ second_half ∷ []) empty_done frames_seen runs refl
