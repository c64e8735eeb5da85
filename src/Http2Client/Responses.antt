-- ===== src/Http2Client/Responses.antt =====
-- The response that a client (src/transport/http2_client.cpp) hands to a request's callback.
use mathlib.Core.Option
use http2_server.Prelude.{
  ℕ, ◌≡◌, refl, sym, ap, ◌∙◌, ◌≢◌, Option, none, some, List, [], ◌∷◌, ◌++◌, Bool, true, false, ◌==◌,
  ◌&&◌, keep_if, Bool-cases, Option-cases, inl, inr, if◌then◌else◌, All, append_assoc, append-nil,
  arith,
}
use http2_server.Prelude.Text.{Text, codes, text_eq}
use http2_server.Prelude.Int.{ℤ, int_eq}
use http2_server.Prelude.Decimal.{stoi}
use http2_server.Prelude.Map.{lookup, Distinct}
use http2_server.Nghttp2.{is_headers, is_response, Frame}
use http2_server.Session.{Event, header, frame_recv, data_chunk, stream_close}
use http2_server.Http2Client.{StreamData, Answer, Table, http2_response}
use http2_server.Http2Client.Callbacks.{answer, step, receive, with_answer, on_header_cb}
use http2_server.Http2Client.Streams.{advance, closes, for_stream}
use http2_server.Http2Client.Receiving.{advance_all, receive_answers}

-- The bytes of a stream's chunks, in their order.
abbrev pub collected : ℤ → List Event → Text
collected i [] = []
collected i (data_chunk flags j content ∷ es) =
    if j == i then content ++ collected i es else collected i es
collected i (_ ∷ es) = collected i es

-- A header that sets the status of a stream.
abbrev pub is_status : ℤ → Frame → Text → Bool
is_status i f name =
    ((is_headers f.type && is_response f.cat) && (f.stream_id == i)) && (name == codes ":status")

-- The last status that the headers of a stream set, or the old one.
abbrev pub last_status : ℤ → ℤ → List Event → ℤ
last_status i now [] = now
last_status i now (header f name value ∷ es) =
    last_status i (if is_status i f name then Option.get_or (stoi value) now else now) es
last_status i now (_ ∷ es) = last_status i now es

-- A header that sets a status has a number.
abbrev pub IsReadable : Event → Type 0
IsReadable (header f name value) =
    ((is_headers f.type && is_response f.cat) && (name == codes ":status")) ≡ true
    → stoi value ≢ none
IsReadable _ = Unit

module _ {C : Type 0} where
  advance-header :
      (i : ℤ) (f : Frame) (name value : Text) (d : StreamData C)
      → advance i (header f name value) d ≡ record d {
        response =
            http2_response
              (if is_status i f name
                then Option.get_or (stoi value) d.response.status_code
                else d.response.status_code)
              d.response.body;
      }
  advance-header i f name value d = elim (Option-cases (stoi value)) [
    | inl x ↦ ground (arith, x)
    | inr (code, x) ↦ ground (arith, x)
  ]

  advance_all-parts :
      (i : ℤ) (es : List Event) (d : StreamData C)
      → advance_all i es d ≡ record d {
        response = http2_response (last_status i d.response.status_code es) d.response.body;
        body_buffer = d.body_buffer ++ collected i es;
      }
  advance_all-parts i [] d = ap (λ x. record d { body_buffer = x }) (sym (append-nil d.body_buffer))
  advance_all-parts i (header f name value ∷ es) d =
      ap (advance_all i es) (advance-header i f name value d) ∙ advance_all-parts i es _
  advance_all-parts i (data_chunk flags j content ∷ es) d = elim (Bool-cases (j == i)) [
    | inl q ↦ rw q (
        advance_all-parts i es _
        ∙ ap
            (λ x. record d {
              response = http2_response (last_status i d.response.status_code es) d.response.body;
              body_buffer = x;
            })
            (append_assoc d.body_buffer content (collected i es)))
    | inr q ↦ rw q (advance_all-parts i es d)
  ]
  advance_all-parts i (frame_recv f ∷ es) d = advance_all-parts i es d
  advance_all-parts i (stream_close j code ∷ es) d = advance_all-parts i es d

  header_total :
      (f : Frame) (name value : Text) (t : Table C)
      → IsReadable (header f name value)
      → on_header_cb f name value t ≢ none
  unfolding on_header_cb
  header_total f name value t h e = elim (Option-cases (lookup f.stream_id t.streams)) [
    | inl x ↦ ground (arith, x)
    | inr (d, x) ↦ ground (arith, x)
  ]

  step_total :
      (e : Event) (t : Table C)
      → IsReadable e
      → (r : Table C × Option (Answer C)) × (step t e ≡ some r)
  unfolding step
  step_total (frame_recv f) t h = (_, refl)
  step_total (data_chunk flags j content) t h = (_, refl)
  step_total (stream_close j code) t h = (_, refl)
  step_total (header f name value) t h = elim (Option-cases (on_header_cb f name value t)) [
    | inl e ↦ absurd (header_total f name value t h e)
    | inr (u, e) ↦ ((u, none), rw (step, e) refl)
  ]

  receive_total :
      (es : List Event) (t : Table C)
      → All IsReadable es
      → (r : Table C × List (Answer C)) × (receive t es ≡ some r)
  unfolding receive
  receive_total [] t h = ((t, []), refl)
  receive_total (e ∷ es) t h =
      let (r, s) = step_total e t h.0 in
      let (x, q) = receive_total es r.0 h.1 in ((x.0, with_answer r.1 x.1), rw (receive, s, q) refl)

  -- In a client with one entry for each stream, a stream that is open, then gets any events and is then
  -- ended, among any events of other streams: if every status that comes is a number, no exception is
  -- thrown, the stream is gone, and it has been answered once, by a call of its callback without an
  -- error, with the last status and with the bytes of its chunks in their order. An entry that held a
  -- status and bytes before keeps them.
  pub receive_response :
      (i : ℤ) (before after : List Event) (code : ℕ) (d : StreamData C) (t : Table C)
      → Distinct t.streams
      → lookup i t.streams ≡ some d
      → All (λ e. closes i e ≡ false) before
      → All IsReadable (before ++ stream_close i code ∷ after)
      → (v : Table C) × (answers : List (Answer C)) × (receive t
            (before ++ stream_close i code ∷ after)
          ≡ some (v, answers))
        × (lookup i v.streams ≡ none)
        × (keep_if (for_stream i) answers
            ≡ record {
              stream_id = i;
              callback = d.callback;
              response =
                  http2_response
                    (last_status i d.response.status_code before)
                    (d.body_buffer ++ collected i before);
              error = [];
            }
              ∷ [])
  receive_response i before after code d t q h c r =
      let ((v, answers), e) = receive_total (before ++ stream_close i code ∷ after) t r in
      let (gone, one) = receive_answers i before after code d t v answers q h c e in
      (v, answers, e, gone, one ∙ ap (λ x. answer i x ∷ []) (advance_all-parts i before d))
