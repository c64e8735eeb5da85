-- ===== src/Http2Client/Replies.antt =====
-- From a session of the server (src/transport/session.cpp) back to a client
-- (src/transport/http2_client.cpp): the response that the server sends is what the callback gets.
use mathlib.Core.Option
use http2_server.Prelude.{
  ℕ, ◌≡◌, refl, ap, ◌∙◌, none, some, List, [], ◌∷◌, ◌++◌, true, false, keep_if, All, is_empty,
  length, take, if◌then◌else◌, ◌==◌, eq_refl, Bool-cases, inl, inr, zero, suc, arith,
}
use http2_server.Prelude.Text.{Text, codes, text_eq, text_beq, c_str}
use http2_server.Prelude.Int.{ℤ, pos, int_eq}
use http2_server.Prelude.Decimal.{
  to_string, stoi, InIntRange, stoi-to_string, length-to_string, size_to_string,
}
use http2_server.Prelude.Map.{lookup, Distinct}
use http2_server.Common.{HttpResponse, make_nv_ls, field_name, field_value}
use http2_server.Common.Headers.{make_nv_ls_whole}
use http2_server.Nghttp2.{
  Frame, headers_frame, response_headers, Nghttp2Call, submit_headers, submit_response, collect,
}
use http2_server.Session.{
  Event, header, frame_recv, data_chunk, stream_close, sender, send_response, content_fields,
  write_data, read_callback,
}
use http2_server.Session.Streams.{on_stream}
use http2_server.Session.Requests.{headers_of, chunks_of, join, IsOtherFrame}
use http2_server.Session.Response.{delivered}
use http2_server.Http2Client.{Answer, Table, no_response, http2_response}
use http2_server.Http2Client.Callbacks.{receive}
use http2_server.Http2Client.Streams.{closes, for_stream}
use http2_server.Http2Client.Responses.{
  collected, last_status, is_status, IsReadable, receive_response,
}
use http2_server.Http2Client.Arrival.{fields_of}

-- The frame of headers with which a response begins.
abbrev pub response_frame : ℤ → ℕ → Frame
response_frame i flags = record {
  type = headers_frame;
  cat = response_headers;
  flags = flags;
  stream_id = i;
}

-- The callbacks at the client for the calls that the server has made of nghttp2: the fields and then
-- the frame of the headers, and, for a body, the chunks of the data, as the reads of the client cut
-- them, and then the frame of the data, which nghttp2 leaves out if its length is not the one announced.
abbrev pub seen : ℕ → List (ℕ × Text) → List Event → List Nghttp2Call → List Event
seen flags cs frames [] = []
seen flags cs frames (submit_headers i fields ∷ calls) =
    headers_of (response_frame i flags) (fields_of fields)
    ++ (frame_recv (response_frame i flags) ∷ seen flags cs frames calls)
seen flags cs frames (submit_response i fields body ∷ calls) =
    headers_of (response_frame i flags) (fields_of fields)
    ++ (frame_recv (response_frame i flags)
        ∷ (chunks_of i cs ++ (frames ++ seen flags cs frames calls)))
seen flags cs frames (_ ∷ calls) = seen flags cs frames calls

collected-frames :
    (i : ℤ) (frames : List Event) → All IsOtherFrame frames → collected i (frames ++ []) ≡ []
collected-frames i [] h = refl
collected-frames i (frame_recv f ∷ es) h = collected-frames i es h.1
collected-frames i (header f n v ∷ es) h = absurd h.0
collected-frames i (data_chunk flags j content ∷ es) h = absurd h.0
collected-frames i (stream_close j code ∷ es) h = absurd h.0

last_status-frames :
    (i now : ℤ) (frames : List Event)
    → All IsOtherFrame frames
    → last_status i now (frames ++ []) ≡ now
last_status-frames i now [] h = refl
last_status-frames i now (frame_recv f ∷ es) h = last_status-frames i now es h.1
last_status-frames i now (header f n v ∷ es) h = absurd h.0
last_status-frames i now (data_chunk flags j content ∷ es) h = absurd h.0
last_status-frames i now (stream_close j code ∷ es) h = absurd h.0

collected-chunks :
    (i : ℤ) (cs : List (ℕ × Text)) (es : List Event)
    → collected i es ≡ []
    → collected i (chunks_of i cs ++ es) ≡ join cs
collected-chunks i [] es h = h
collected-chunks i ((flags, content) ∷ cs) es h =
    rw (eq_refl i) (ap (λ t. content ++ t) (collected-chunks i cs es h))

last_status-chunks :
    (i now : ℤ) (cs : List (ℕ × Text)) (es : List Event)
    → last_status i now (chunks_of i cs ++ es) ≡ last_status i now es
last_status-chunks i now [] es = refl
last_status-chunks i now ((flags, content) ∷ cs) es = last_status-chunks i now cs es

-- The events of other streams do not matter.
collected-keep_if :
    (i : ℤ) (es : List Event) → collected i es ≡ collected i (keep_if (on_stream i) es)
collected-keep_if i [] = refl
collected-keep_if i (header f n v ∷ es) = ground (arith, collected-keep_if i es)
collected-keep_if i (frame_recv f ∷ es) = ground (arith, collected-keep_if i es)
collected-keep_if i (data_chunk flags j content ∷ es) = ground (arith, collected-keep_if i es)
collected-keep_if i (stream_close j code ∷ es) = ground (arith, collected-keep_if i es)

other_status : (i : ℤ) (f : Frame) (n : Text) → (f.stream_id == i) ≡ false → is_status i f n ≡ false
other_status i f n h = ground arith

last_status-keep_if :
    (i now : ℤ) (es : List Event)
    → last_status i now es ≡ last_status i now (keep_if (on_stream i) es)
last_status-keep_if i now [] = refl
last_status-keep_if i now (header f n v ∷ es) = elim (Bool-cases (f.stream_id == i)) [
  | inl q ↦ ground (
    arith,
    q,
    last_status-keep_if i (if is_status i f n then Option.get_or (stoi v) now else now) es,
  )
  | inr q ↦ ground (arith, q, other_status i f n q, last_status-keep_if i now es)
]
last_status-keep_if i now (frame_recv f ∷ es) = ground (arith, last_status-keep_if i now es)
last_status-keep_if i now (data_chunk flags j content ∷ es) =
    ground (arith, last_status-keep_if i now es)
last_status-keep_if i now (stream_close j code ∷ es) = ground (arith, last_status-keep_if i now es)

-- The status that the client reads off the fields of a response.
read_status :
    (i now : ℤ) (flags : ℕ) (code : ℤ) (rest : List Event)
    → InIntRange code
    → last_status i now (
        header
          (response_frame i flags)
          (field_name (make_nv_ls (codes ":status") (to_string code)))
          (field_value (make_nv_ls (codes ":status") (to_string code)))
        ∷ rest)
      ≡ last_status i code rest
read_status i now flags code rest h =
    let status =
      make_nv_ls_whole (codes ":status") (to_string code) (unfold codes in omega arith) in
    rw
      (
        status.0,
        status.1.1 (omega (arith, length-to_string code h)),
        eq_refl i,
        eq_refl (codes ":status"),
        stoi-to_string code h,
      )
      refl

-- A field that is no status.
skip_field :
    (i now : ℤ) (flags : ℕ) (name value : Text) (rest : List Event)
    → (field_name (make_nv_ls name value) == codes ":status") ≡ false
    → last_status i now (
        header
          (response_frame i flags)
          (field_name (make_nv_ls name value))
          (field_value (make_nv_ls name value))
        ∷ rest)
      ≡ last_status i now rest
skip_field i now flags name value rest h = rw (eq_refl i, h) refl

not_status :
    (value : Text)
    → ((field_name (make_nv_ls (codes "content-type") value) == codes ":status") ≡ false)
      × ((field_name (make_nv_ls (codes "content-length") value) == codes ":status") ≡ false)
unfolding make_nv_ls codes text_beq
not_status value = (refl, refl)

empty_body : (room : ℕ) (body : Text) → is_empty body ≡ true → [] ≡ take room (c_str body)
unfolding c_str
empty_body zero [] h = refl
empty_body (suc room) [] h = refl
empty_body room (x ∷ body) h = cc

both_same : {a b : ℤ} {s t : Text} → a ≡ b → s ≡ t → Path (ℤ × Text) (a, s) (b, t)
both_same e f = cc

module _ (r : HttpResponse) (i : ℤ) (flags : ℕ) (cs : List (ℕ × Text)) (frames : List Event) where
  -- The callbacks of the client for the response.
  abbrev pub response_events : List Event
  response_events = seen flags cs frames (sender i r)

  -- What comes behind the fields of a response with a body.
  abbrev behind : List Event
  behind = frame_recv (response_frame i flags) ∷ (chunks_of i cs ++ (frames ++ []))

  response_events-status :
      (now : ℤ)
      → All IsOtherFrame frames
      → InIntRange r.status_code
      → last_status i now response_events ≡ r.status_code
  unfolding sender send_response write_data
  response_events-status now others h = elim (Bool-cases (is_empty r.body)) [
    | inl e ↦
        rw e (read_status i now flags r.status_code (frame_recv (response_frame i flags) ∷ []) h)
    | inr e ↦
        let size = make_nv_ls (codes "content-length") (size_to_string (length r.body)) in
        let frame = response_frame i flags in
        rw e (
          read_status i now flags r.status_code
            (headers_of frame (fields_of (content_fields r)) ++ behind) h
          ∙ skip_field i r.status_code flags (codes "content-type") r.content_type
              (headers_of frame (fields_of (size ∷ [])) ++ behind) (not_status r.content_type).0
          ∙ skip_field i r.status_code flags (codes "content-length")
              (size_to_string (length r.body)) behind
              (not_status (size_to_string (length r.body))).1
          ∙ last_status-chunks i r.status_code cs (frames ++ [])
          ∙ last_status-frames i r.status_code frames others)
  ]

  response_events-body :
      (room : ℕ) (rooms : List ℕ)
      → All IsOtherFrame frames
      → join cs ≡ collect (read_callback r.body) (room ∷ rooms)
      → collected i response_events ≡ take room (c_str r.body)
  unfolding sender send_response write_data
  response_events-body room rooms others h = elim (Bool-cases (is_empty r.body)) [
    | inl e ↦ rw e (empty_body room r.body e)
    | inr e ↦ rw e (
        collected-chunks i cs (frames ++ []) (collected-frames i frames others)
        ∙ h
        ∙ delivered r.body room rooms)
  ]

  -- In a client with one entry for each stream, on a stream that is open and new: if its events, among
  -- any events of other streams, are those of the response that a session of the server sends on a
  -- stream of the same number, its body in one DATA frame that is cut in any way, and then the
  -- stream's end, and if the response's status fits an `int` and each
  -- other status that comes is a number: the client calls the stream's callback once, without an
  -- error, with the status that was sent and with the body up to its first NUL, as far as the server's
  -- first DATA frame had room for it.
  pub response_arrives :
      {C : Type 0} (room : ℕ) (rooms : List ℕ) (before after : List Event) (code : ℕ) (callback : C)
      (t : Table C)
      → All IsOtherFrame frames
      → join cs ≡ collect (read_callback r.body) (room ∷ rooms)
      → InIntRange r.status_code
      → Distinct t.streams
      → lookup i t.streams
        ≡ some (record { callback = callback; response = no_response; body_buffer = [] })
      → keep_if (on_stream i) before ≡ response_events
      → All (λ e. closes i e ≡ false) before
      → All IsReadable (before ++ stream_close i code ∷ after)
      → (v : Table C) × (answers : List (Answer C)) × (receive t
            (before ++ stream_close i code ∷ after)
          ≡ some (v, answers))
        × (lookup i v.streams ≡ none)
        × (keep_if (for_stream i) answers
            ≡ record {
              stream_id = i;
              callback = callback;
              response = http2_response r.status_code (take room (c_str r.body));
              error = [];
            }
              ∷ [])
  response_arrives room rooms before after code callback t others cut small d found own open_until
        readable =
      let (v, answers, e, gone, one) =
        receive_response i before after code _ t d found open_until readable in
      let status =
        last_status-keep_if i (pos 0) before
        ∙ ap (last_status i (pos 0)) own
        ∙ response_events-status (pos 0) others small in
      let body =
        collected-keep_if i before
        ∙ ap (collected i) own
        ∙ response_events-body room rooms others cut in
      (
        v,
        answers,
        e,
        gone,
        one
            ∙ ap
                (λ (x : ℤ × Text).
                  record {
                    stream_id = i;
                    callback = callback;
                    response = http2_response x.0 x.1;
                    error = [];
                  }
                  ∷ [])
                (both_same status body),
      )
