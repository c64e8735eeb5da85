-- ===== src/Http2Client/Arrival.antt =====
-- From a client (src/transport/http2_client.cpp) to the session of the server
-- (src/transport/session.cpp): what the client submits is what the server's handler is given.
use http2_server.Prelude.{
  ℕ, zero, suc, ◌<◌, ◌^◌, ◌≡◌, refl, ap, ◌∙◌, none, List, [], ◌∷◌, map, true, false, keep_if,
  is_empty, length, All, ◌++◌, take, Bool-cases, inl, inr, arith,
}
use http2_server.Prelude.Text.{Text, codes, text_eq, text_beq}
use http2_server.Prelude.Int.{ℤ, int_eq}
use http2_server.Prelude.Map.{lookup, Distinct}
use http2_server.Common.{Nv, make_nv_ls, field_name, field_value}
use http2_server.Common.Headers.{make_nv_ls_whole}
use http2_server.Nghttp2.{Frame, end_stream, collect}
use http2_server.Session.{Streams, Event, run, Invocation}
use http2_server.Session.Response.{take_cut}
use http2_server.Session.Streams.{on_stream, for_stream}
use http2_server.Session.Requests.{
  Opens, begun, last_value, run_split, IsOtherFrame, chunks_of, join, parts, last_of, last_of-parts,
}
use http2_server.Http2Client.{
  Client, content_headers, request_headers, prepare_request, read_callback,
}

-- What nghttp2 reads of the fields that it is given.
abbrev pub fields_of : List Nv → List (Text × Text)
fields_of = map (λ nv. (field_name nv, field_value nv))

-- The body as nghttp2 gets it is the part of it that its first DATA frame has room for.
collected :
    (body : Text) (room : ℕ) (rooms : List ℕ)
    → collect (read_callback body) (room ∷ rooms) ≡ take room body
unfolding read_callback
collected [] zero rooms = refl
collected [] (suc room) rooms = refl
collected (x ∷ body) room rooms = take_cut room (x ∷ body)

-- Calls of the handler for one stream, with these bodies.
abbrev pub asked_for : ℤ → Text → Text → List Text → List Invocation
asked_for i method path =
    map (λ t. record { method = method; path = path; body = t; stream_id = i })

module _ {C : Type 0} (method path body : Text) (c : Client C) where
  -- The last `:method` and the last `:path` of a request, whether or not it has a body.
  request_headers-last :
      (last_value (codes ":method") [] (fields_of (request_headers method path body c))
        ≡ field_value (make_nv_ls (codes ":method") method))
      × (last_value (codes ":path") [] (fields_of (request_headers method path body c))
          ≡ field_value (make_nv_ls (codes ":path") path))
  unfolding request_headers content_headers make_nv_ls codes text_beq
  request_headers-last = elim (Bool-cases (is_empty body)) [
    | inl e ↦ rw e (refl, refl)
    | inr e ↦ rw e (refl, refl)
  ]

  prepare_request-storage :
      is_empty body ≡ false → (prepare_request method path body c).request_body_storage ≡ body
  unfolding prepare_request
  prepare_request-storage h = rw h refl

  prepare_request-collected :
      (room : ℕ) (rooms : List ℕ)
      → is_empty body ≡ false
      → collect
          (read_callback (prepare_request method path body c).request_body_storage)
          (room ∷ rooms)
        ≡ take room body
  prepare_request-collected room rooms h =
      ap (λ b. collect (read_callback b) (room ∷ rooms)) (prepare_request-storage h)
      ∙ collected body room rooms

  -- A request with a body that a client submits, with a method and a path shorter than 65536 bytes,
  -- whose headers and whose one DATA frame arrive on a new stream of a server's session, the data in
  -- chunks flagged END_STREAM, as the reads of the server cut them, among the events of any other
  -- streams: the server's handler is called once for each chunk, with the method and the path of the
  -- client and with the chunks so far, and the last time with as much of the body as the client's
  -- DATA frame had room for.
  pub request_arrives :
      (s : Streams) (es : List Event) (i : ℤ) (f : Frame) (cs : List (ℕ × Text))
      (frames : List Event) (room : ℕ) (rooms : List ℕ)
      → is_empty body ≡ false
      → length method < 2 ^ 16
      → length path < 2 ^ 16
      → Distinct s
      → lookup i s ≡ none
      → Opens f i false
      → All (λ c. end_stream c.0 ≡ true) cs
      → All IsOtherFrame frames
      → join cs
        ≡ collect
            (read_callback (prepare_request method path body c).request_body_storage)
            (room ∷ rooms)
      → keep_if (on_stream i) es
        ≡ begun f (fields_of (request_headers method path body c)) (chunks_of i cs ++ frames)
      → (keep_if (for_stream i) (run s es).1 ≡ asked_for i method path (parts [] cs))
        × (last_of [] (parts [] cs) ≡ take room body)
  request_arrives s es i f cs frames room rooms some_body short_method short_path d fresh o ends
        others whole e =
      let fields = fields_of (request_headers method path body c) in
      let whole_method =
        (make_nv_ls_whole (codes ":method") method (unfold codes in omega arith)).1.1 in
      let whole_path = (make_nv_ls_whole (codes ":path") path (unfold codes in omega arith)).1.1 in
      (
        run_split s es i f fields [] cs frames d fresh o tt ends others e
            ∙ ap (λ m. asked_for i m (last_value (codes ":path") [] fields) (parts [] cs))
                (request_headers-last.0 ∙ whole_method short_method)
            ∙ ap (λ p. asked_for i method p (parts [] cs))
                (request_headers-last.1 ∙ whole_path short_path),
        last_of-parts [] cs ∙ whole ∙ prepare_request-collected room rooms some_body,
      )
