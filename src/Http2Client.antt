-- ===== src/Http2Client.antt =====
-- `Http2Client` (src/transport/http2_client.hpp and http2_client.cpp): requests over HTTP/2. The client
-- is one object that all requests share. An asynchronous operation is an entry of `pending`, with what
-- its lambda captures; a callback is kept as data, of a type `C` that the caller chooses, and is never
-- empty. Whether a call of nghttp2 succeeds is part of the completion during which it is made.
pub mod Callbacks
pub mod Streams
pub mod Receiving
pub mod Responses
pub mod Accounting
pub mod Once
pub mod Connection
pub mod Arrival
pub mod Replies
pub mod Lifetime
pub mod Overlap
pub mod Sending
use mathlib.Core.Option
use http2_server.Prelude.{
  ℕ, ◌+◌, Option, none, some, List, [], ◌∷◌, ◌++◌, Bool, true, false, ◌==◌, ◌||◌, ◌&&◌, is_empty,
  length, take, if◌then◌else◌, leb,
}
use http2_server.Prelude.Text.{Text, codes, text_eq}
use http2_server.Prelude.Int.{ℤ, pos, negsuc, int_eq}
use http2_server.Prelude.Decimal.{to_string, size_to_string, stoi}
use http2_server.Prelude.Map.{Map, lookup, insert, erase}
use http2_server.Common.{Nv, make_nv_ls}
use http2_server.Nghttp2.{
  Frame, is_headers, is_response, Setting, max_concurrent_streams, initial_window_size, Nghttp2Call,
  session_client_new, submit_settings, submit_request, session_send, ReadCallback,
}
use http2_server.Session.{Event, header, frame_recv, data_chunk, stream_close}

pub record Http2Response : Type 0 where
  pub status_code : ℤ
  pub body : Text

abbrev pub http2_response : ℤ → Text → Http2Response
http2_response code b = record { status_code = code; body = b }

-- `Http2Response()`
abbrev pub no_response : Http2Response
no_response = http2_response (pos 0) []

pub record StreamData (C : Type 0) : Type 0 where
  pub callback : C
  pub response : Http2Response
  pub body_buffer : Text

-- `streams_`
abbrev pub Streams : Type 0 → Type 0
Streams C = Map ℤ (StreamData C)

-- A call of a callback, with the stream whose end makes it, or 0 if there is no stream yet.
pub record Answer (C : Type 0) : Type 0 where
  pub stream_id : ℤ
  pub callback : C
  pub response : Http2Response
  pub error : Text

abbrev pub failure : {C : Type 0} → C → Text → Text → Answer C
failure callback what message = record {
  stream_id = pos 0;
  callback = callback;
  response = no_response;
  error = what ++ message;
}

-- What the lambdas on the way to the connection capture.
pub record Request (C : Type 0) : Type 0 where
  pub method : Text
  pub path : Text
  pub body : Text
  pub callback : C

pub data Operation (C : Type 0) : Type 0 where
  resolve : Request C → Operation C
  connect : Request C → Operation C
  read : Operation C

-- What the callbacks of nghttp2 change: `streams_`, and the keys of `data_providers_`.
pub record Table (C : Type 0) : Type 0 where
  pub streams : Streams C
  pub data_providers : Map ℤ (Unit {0})

pub record Client (C : Type 0) : Type 0 where
  pub table : Table C
  pub request_body_storage : Text
  pub current_host : Text
  pub current_port : ℤ
  pub next_stream_id : ℤ
  pub pending : List (Operation C)
  -- The calls made of nghttp2, and the calls made of callbacks.
  pub submitted : List Nghttp2Call
  pub called : List (Answer C)

abbrev pub new_client : {C : Type 0} → Client C
new_client = record {
  table = record { streams = []; data_providers = [] };
  request_body_storage = [];
  current_host = [];
  current_port = pos 0;
  next_stream_id = pos 1;
  pending = [];
  submitted = [];
  called = [];
}

abbrev pub settings : List (Setting × ℕ)
settings = (max_concurrent_streams, 100) ∷ (initial_window_size, 65535) ∷ []

unfoldable pub content_headers : Text → List Nv
content_headers body =
    if is_empty body
    then []
    else make_nv_ls (codes "content-length") (size_to_string (length body))
      ∷ make_nv_ls (codes "content-type") (codes "application/json")
      ∷ []

-- The lambda `read_callback` of a request: it reads the body that the client holds at the time, and one
-- buffer of it is taken for the whole.
unfoldable pub read_callback : Text → ReadCallback
read_callback storage room =
    if is_empty storage
    then ([], true)
    else (take (if leb (length storage) room then length storage else room) storage, true)

module _ {C : Type 0} where
  abbrev pub begin_operation : Operation C → Client C → Client C
  begin_operation o c = record c { pending = c.pending ++ o ∷ [] }

  abbrev pub submit : Nghttp2Call → Client C → Client C
  submit call c = record c { submitted = c.submitted ++ call ∷ [] }

  abbrev pub call_back : Answer C → Client C → Client C
  call_back a c = record c { called = c.called ++ a ∷ [] }

  unfoldable pub connect_and_send : Text → ℤ → Text → Text → Text → C → Client C → Client C
  connect_and_send host port method path body callback c =
      begin_operation
        (resolve (record { method = method; path = path; body = body; callback = callback }))
        (record c { current_host = host; current_port = port })

  unfoldable pub send_request : Text → ℤ → Text → Text → Text → C → Client C → Client C
  unfolding connect_and_send
  send_request host port method path body callback c =
      connect_and_send host port method path body callback c

  unfoldable pub write_data : Client C → Client C
  write_data c = submit session_send c

  -- `created` tells whether `nghttp2_session_client_new` returned 0.
  unfoldable pub setup_nghttp2_client : Bool → Client C → Client C
  setup_nghttp2_client created c =
      let opened = submit session_client_new c in
      if created then write_data (submit (submit_settings settings) opened) else opened

  unfoldable pub authority : Client C → Text
  authority c =
      if (c.current_port == pos 80) || (c.current_port == pos 0)
      then c.current_host
      else c.current_host ++ (codes ":" ++ to_string c.current_port)

  unfoldable pub request_headers : Text → Text → Text → Client C → List Nv
  request_headers method path body c =
      make_nv_ls (codes ":method") method
      ∷ make_nv_ls (codes ":path") path
      ∷ make_nv_ls (codes ":scheme") (codes "http")
      ∷ make_nv_ls (codes ":authority") (authority c)
      ∷ content_headers body

  -- The entry of `streams_[stream_id]`, with its callback replaced.
  abbrev pub with_callback : C → Option (StreamData C) → StreamData C
  with_callback callback none = record {
    callback = callback;
    response = no_response;
    body_buffer = [];
  }
  with_callback callback (some d) = record d { callback = callback }

  -- The part of `send_http2_request` before nghttp2 returns a stream id.
  unfoldable pub prepare_request : Text → Text → Text → Client C → Client C
  prepare_request method path body c =
      submit
        (submit_request (request_headers method path body c)
          (if is_empty body then false else true))
        (if is_empty body then c else record c {
          request_body_storage = body;
          table = record (c.table) {
            data_providers = insert c.next_stream_id tt c.table.data_providers;
          };
        })

  -- The part after it: the stream id is what `nghttp2_submit_request` returned.
  unfoldable pub store_stream : C → ℤ → Client C → Client C
  store_stream callback (negsuc error) c = c
  store_stream callback (pos n) c = write_data (record c {
    next_stream_id = pos (n + 2);
    table = record (c.table) {
      streams =
          insert (pos n) (with_callback callback (lookup (pos n) c.table.streams)) c.table.streams;
    };
  })

  unfoldable pub send_http2_request : Text → Text → Text → C → ℤ → Client C → Client C
  unfolding prepare_request store_stream
  send_http2_request method path body callback stream_id c =
      store_stream callback stream_id (prepare_request method path body c)

  unfoldable pub read_data : Client C → Client C
  read_data c = begin_operation read c
