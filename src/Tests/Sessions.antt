-- ===== src/Tests/Sessions.antt =====
-- Two streams of a session (src/transport/session.cpp) whose events are interleaved.
use http2_server.Prelude.{
  ℕ, ◌<◌, ◌≤◌, ◌^◌, ◌≡◌, ◌↔◌, refl, List, [], ◌∷◌, ◌++◌, map, false, keep_if, length, arith,
}
use http2_server.Prelude.Text.{Text, codes, NoNul}
use http2_server.Prelude.Int.{ℤ, pos, int_eq}
use http2_server.Prelude.Map.{lookup}
use http2_server.Common.{make_nv_ls, field_name, field_value}
use http2_server.Common.Headers.{make_nv_ls_whole}
use http2_server.Nghttp2.{Frame, headers_frame, data_frame, request_headers, other_headers, collect}
use http2_server.Session.{Event, header, frame_recv, data_chunk, stream_close, run, read_callback}
use http2_server.Session.Streams.{on_stream, for_stream, run_alone, run_isolated}
use http2_server.Session.Requests.{Opens, asked_with, parts, run_request, run_lost, run_split}
use http2_server.Session.Response.{delivered_whole_iff}

abbrev head_of : ℤ → ℕ → Frame
head_of i flags = record {
  type = headers_frame;
  cat = request_headers;
  flags = flags;
  stream_id = i;
}

abbrev fields : List (Text × Text)
fields = (codes ":method", codes "POST") ∷ (codes ":path", codes "/a") ∷ []

opens : Opens (head_of (pos 1) 4) (pos 1) false
opens = record { request = refl; stream = refl; ending = refl }

abbrev data_of : ℤ → ℕ → Frame
data_of i flags = record { type = data_frame; cat = other_headers; flags = flags; stream_id = i }

-- Stream 3, and the close of a stream 5, between the events of stream 1, whose first DATA frame comes in
-- two chunks, and which ends as given.
abbrev mixed : List Event → List Event
mixed rest =
    header (head_of (pos 1) 4) (codes ":method") (codes "POST")
    ∷ header (head_of (pos 3) 5) (codes ":path") (codes "/b")
    ∷ header (head_of (pos 1) 4) (codes ":path") (codes "/a")
    ∷ frame_recv (head_of (pos 1) 4)
    ∷ frame_recv (head_of (pos 3) 5)
    ∷ data_chunk 0 (pos 1) (codes "a")
    ∷ data_chunk 0 (pos 1) (codes "b")
    ∷ frame_recv (data_of (pos 1) 0)
    ∷ stream_close (pos 5) 0
    ∷ rest

abbrev first_frame : List Event
first_frame =
    data_chunk 0 (pos 1) (codes "a")
    ∷ data_chunk 0 (pos 1) (codes "b")
    ∷ frame_recv (data_of (pos 1) 0)
    ∷ []

abbrev whole : List Event
whole = mixed (data_chunk 1 (pos 1) (codes "c") ∷ frame_recv (data_of (pos 1) 1) ∷ [])

run_isolated_example :
    (lookup (pos 3) (run [] whole).0
      ≡ (run_alone (lookup (pos 3) []) (keep_if (on_stream (pos 3)) whole)).0)
    × (keep_if (for_stream (pos 3)) (run [] whole).1
        ≡ (run_alone (lookup (pos 3) []) (keep_if (on_stream (pos 3)) whole)).1)
run_isolated_example = run_isolated [] whole (pos 3) tt

run_request_example :
    keep_if (for_stream (pos 1)) (run [] whole).1 ≡ asked_with (pos 1) fields (codes "abc") ∷ []
unfolding codes
run_request_example =
    run_request [] whole (pos 1) (head_of (pos 1) 4) fields first_frame 1 (codes "c")
      (frame_recv (data_of (pos 1) 1) ∷ []) tt (unfold lookup in refl) opens
      (refl, (refl, (refl, tt))) refl (refl, tt) refl

-- The last DATA frame is an empty one.
abbrev lost : List Event
lost = mixed (frame_recv (data_of (pos 1) 1) ∷ [])

run_lost_example : keep_if (for_stream (pos 1)) (run [] lost).1 ≡ []
run_lost_example =
    run_lost [] lost (pos 1) (head_of (pos 1) 4) fields
      (first_frame ++ frame_recv (data_of (pos 1) 1) ∷ []) tt (unfold lookup in refl) opens
      (refl, (refl, (refl, (refl, tt)))) refl

-- The last DATA frame arrives in two pieces.
abbrev split : List Event
split = mixed (
    data_chunk 1 (pos 1) (codes "c")
    ∷ header (head_of (pos 7) 5) (codes ":path") (codes "/b")
    ∷ data_chunk 1 (pos 1) (codes "d")
    ∷ frame_recv (data_of (pos 1) 1)
    ∷ [])

run_split_example :
    keep_if (for_stream (pos 1)) (run [] split).1
    ≡ map (asked_with (pos 1) fields) (parts (codes "ab") ((1, codes "c") ∷ (1, codes "d") ∷ []))
unfolding codes
run_split_example =
    run_split [] split (pos 1) (head_of (pos 1) 4) fields first_frame
      ((1, codes "c") ∷ (1, codes "d") ∷ []) (frame_recv (data_of (pos 1) 1) ∷ []) tt
      (unfold lookup in refl) opens (refl, (refl, (refl, tt))) (refl, (refl, tt)) (refl, tt) refl

delivered_whole_iff_example :
    (collect (read_callback (codes "hello")) (16384 ∷ []) ≡ codes "hello")
    ↔ (NoNul (codes "hello") × (length (codes "hello") ≤ 16384))
delivered_whole_iff_example = delivered_whole_iff (codes "hello") 16384 []

make_nv_ls_whole_example :
    (field_name (make_nv_ls (codes ":status") (codes "200")) ≡ codes ":status")
    × ((field_value (make_nv_ls (codes ":status") (codes "200")) ≡ codes "200")
        ↔ (length (codes "200") < 2 ^ 16))
make_nv_ls_whole_example =
    make_nv_ls_whole (codes ":status") (codes "200") (unfold codes in omega arith)
