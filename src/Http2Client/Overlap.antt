-- ===== src/Http2Client/Overlap.antt =====
-- Which host a request of `Http2Client` (src/transport/http2_client.cpp) names: `current_host_` and
-- `current_port_` are members, which every later request overwrites.
use mathlib.Core.Option
use http2_server.Prelude.{
  ◌≡◌, refl, sym, ap, ◌∙◌, none, some, List, [], ◌∷◌, ◌++◌, Bool, true, false, ◌==◌, ◌||◌,
  if◌then◌else◌, is_empty, keep_if, keep_if-append, append-nil, Bool-cases, Option-cases, inl, inr,
  arith,
}
use http2_server.Prelude.Text.{Text, codes}
use http2_server.Prelude.Int.{ℤ, pos, negsuc, int_eq}
use http2_server.Prelude.Decimal.{to_string}
use http2_server.Common.{Nv, make_nv_ls}
use http2_server.Nghttp2.{
  Nghttp2Call, submit_settings, session_client_new, submit_request, session_send,
}
use http2_server.Http2Client.{
  Request, Operation, resolve, connect, read, Client, settings, new_client, content_headers,
  request_headers, authority, connect_and_send, send_request, setup_nghttp2_client, prepare_request,
  store_stream, send_http2_request, write_data, read_data,
}
use http2_server.Http2Client.Connection.{
  Completion, on_resolved, on_connected, on_read, handle_connect, fed, finish, take_out, Input, ask,
  completed, input, live,
}

-- The host and the port that the client has at the time.
abbrev pub current : {C : Type 0} → Client C → Text × ℤ
current c = (c.current_host, c.current_port)

-- The host and the port of the last request that was asked for.
abbrev pub last_asked : {C : Type 0} → Text × ℤ → List (Input C) → Text × ℤ
last_asked now [] = now
last_asked now (ask host port r ∷ xs) = last_asked (host, port) xs
last_asked now (completed i k ∷ xs) = last_asked now xs

-- The plain reading of a `:authority`.
abbrev pub authority_of : Text × ℤ → Text
authority_of (host, port) =
    if (port == pos 80) || (port == pos 0) then host else host ++ (codes ":" ++ to_string port)

abbrev pub is_request_call : Nghttp2Call → Bool
is_request_call (submit_request nvs provider) = true
is_request_call _ = false

abbrev pub requests : List Nghttp2Call → List Nghttp2Call
requests calls = keep_if is_request_call calls

requests-append :
    (calls extra : List Nghttp2Call) → requests (calls ++ extra) ≡ requests calls ++ requests extra
requests-append calls extra = keep_if-append is_request_call calls extra

unrequested :
    (calls extra : List Nghttp2Call)
    → requests extra ≡ []
    → requests (calls ++ extra) ≡ requests calls
unrequested calls extra h =
    requests-append calls extra ∙ ap (λ t. requests calls ++ t) h ∙ append-nil (requests calls)

module _ {C : Type 0} where
  on_connected-current :
      (k : Completion) (r : Request C) (c : Client C) → current (on_connected k r c) ≡ current c
  unfolding on_connected send_http2_request prepare_request store_stream setup_nghttp2_client
      write_data read_data
  on_connected-current k r c = ground arith

  on_read-current : (k : Completion) (c d : Client C) → on_read k c ≡ some d → current d ≡ current c
  unfolding on_read fed write_data read_data
  on_read-current k c d h = ground arith

  finish-current :
      (o : Operation C) (k : Completion) (c d : Client C)
      → finish o k c ≡ some d
      → current d ≡ current c
  unfolding finish on_resolved handle_connect
  finish-current (resolve r) k c d h = ground arith
  finish-current (connect r) k c d h =
      let e : on_connected k r c ≡ d = Option.some-injective _ _ h in
      sym (ap current e) ∙ on_connected-current k r c
  finish-current read k c d h = on_read-current k c d h

  input-current :
      (x : Input C) (c d : Client C)
      → input x c ≡ some d
      → current d ≡ last_asked (current c) (x ∷ [])
  unfolding input send_request connect_and_send
  input-current (ask host port r) c d h = ground arith
  input-current (completed i k) c d h = elim (Option-cases (take_out i c.pending)) [
    | inl e ↦
        let same : c ≡ d = Option.some-injective c d (rw (input, e) at h) in sym (ap current same)
    | inr ((o, rest), e) ↦ finish-current o k (record c { pending = rest }) d (rw (input, e) at h)
  ]

  last_asked-cons :
      (now : Text × ℤ) (x : Input C) (xs : List (Input C))
      → last_asked now (x ∷ xs) ≡ last_asked (last_asked now (x ∷ [])) xs
  last_asked-cons now (ask host port r) xs = refl
  last_asked-cons now (completed i k) xs = refl

  live-current :
      (c d : Client C) (xs : List (Input C))
      → live c xs ≡ some d
      → current d ≡ last_asked (current c) xs
  unfolding live
  live-current c d [] h = sym (ap current (Option.some-injective c d h))
  live-current c d (x ∷ xs) h = elim (Option-cases (input x c)) [
    | inl e ↦ let q : none ≡ some d = rw (live, e) at h in cc
    | inr (next, e) ↦
        live-current next d xs (rw (live, e) at h)
        ∙ ap (λ now. last_asked now xs) (input-current x c next e)
        ∙ sym (last_asked-cons (current c) x xs)
  ]

  authority-current : (c : Client C) → authority c ≡ authority_of (current c)
  unfolding authority
  authority-current c = refl

  -- The header fields of a request, with this host and port.
  abbrev pub fields_to : Text × ℤ → Request C → List Nv
  fields_to to r =
      make_nv_ls (codes ":method") r.method
      ∷ make_nv_ls (codes ":path") r.path
      ∷ make_nv_ls (codes ":scheme") (codes "http")
      ∷ make_nv_ls (codes ":authority") (authority_of to)
      ∷ content_headers r.body

  store_stream-requests :
      (callback : C) (stream_id : ℤ) (c : Client C)
      → requests (store_stream callback stream_id c).submitted ≡ requests c.submitted
  unfolding store_stream write_data
  store_stream-requests callback (negsuc error) c = refl
  store_stream-requests callback (pos n) c = unrequested c.submitted _ refl

  setup-requests :
      (created : Bool) (c : Client C)
      → (requests (setup_nghttp2_client created c).submitted ≡ requests c.submitted)
        × (current (setup_nghttp2_client created c) ≡ current c)
  unfolding setup_nghttp2_client write_data
  setup-requests true c = (
    unrequested (c.submitted ++ session_client_new ∷ [] ++ submit_settings settings ∷ [])
          (session_send ∷ []) refl
        ∙ unrequested (c.submitted ++ session_client_new ∷ []) (submit_settings settings ∷ []) refl
        ∙ unrequested c.submitted (session_client_new ∷ []) refl,
    refl,
  )
  setup-requests false c = (unrequested c.submitted _ refl, refl)

  prepare_request-requests :
      (r : Request C) (c : Client C)
      → requests (prepare_request r.method r.path r.body c).submitted
        ≡ requests c.submitted
          ++ submit_request (fields_to (current c) r) (if is_empty r.body then false else true) ∷ []
  unfolding prepare_request request_headers authority
  prepare_request-requests r c = elim (Bool-cases (is_empty r.body)) [
    | inl e ↦ rw e (requests-append c.submitted _)
    | inr e ↦ rw e (requests-append c.submitted _)
  ]

  -- The body of the request is what data providers read from then on.
  on_connected-storage :
      (k : Completion) (r : Request C) (c : Client C)
      → k.ec ≡ none
      → (on_connected k r c).request_body_storage
        ≡ (if is_empty r.body then c.request_body_storage else r.body)
  unfolding on_connected send_http2_request prepare_request store_stream setup_nghttp2_client
      write_data read_data
  on_connected-storage k r c e = ground arith

  -- At any time in the life of a client, when the connection for any request comes about: exactly one
  -- more request is submitted, with its own method and path, but with the host and the port of the
  -- request that was asked for last, whichever it was; it has a data provider exactly if it has a
  -- body; and then the storage that data providers read holds that body, and it is as before if not.
  pub connected_authority :
      (xs : List (Input C)) (c : Client C) (k : Completion) (r : Request C)
      → live new_client xs ≡ some c
      → k.ec ≡ none
      → (requests (on_connected k r c).submitted
          ≡ requests c.submitted
            ++ submit_request
                (fields_to (last_asked ([], pos 0) xs) r)
                (if is_empty r.body then false else true)
              ∷ [])
        × ((on_connected k r c).request_body_storage
            ≡ (if is_empty r.body then c.request_body_storage else r.body))
  unfolding on_connected send_http2_request read_data
  connected_authority xs c k r h e =
      let opened = setup_nghttp2_client k.created c in
      let provider = if is_empty r.body then false else true in
      let (kept, same) = setup-requests k.created c in
      (
        rw e (
            store_stream-requests r.callback k.stream_id
              (prepare_request r.method r.path r.body opened)
            ∙ prepare_request-requests r opened
            ∙ ap (λ t. t ++ submit_request (fields_to (current opened) r) provider ∷ []) kept
            ∙ ap (λ t. requests c.submitted ++ submit_request (fields_to t r) provider ∷ [])
                (same ∙ live-current new_client c xs h)),
        on_connected-storage k r c e,
      )
