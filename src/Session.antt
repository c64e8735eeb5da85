-- ===== src/Session.antt =====
-- `Session` (src/transport/session.h and session.cpp): one HTTP/2 connection of the server. The
-- callbacks that nghttp2 makes are events; a call of `request_cb_` is the invocation that a callback
-- ends with. The session's own number stands for the lambda `sender`.
pub mod Streams
pub mod Requests
pub mod Response
pub mod Connection
pub mod Sending
use http2_server.Prelude.{
  ℕ, Option, none, some, List, [], ◌∷◌, ◌++◌, Bool, true, false, ◌==◌, ◌&&◌, is_empty, length, take,
  if◌then◌else◌, leb,
}
use http2_server.Prelude.Text.{Text, codes, text_eq, c_str}
use http2_server.Prelude.Int.{ℤ, int_eq}
use http2_server.Prelude.Decimal.{to_string, size_to_string}
use http2_server.Prelude.Map.{Map, lookup, insert, erase}
use http2_server.Common.{HttpResponse, Nv, make_nv_ls}
use http2_server.Nghttp2.{
  Frame, end_stream, is_headers, is_request, Nghttp2Call, submit_headers, submit_response,
  session_send, ReadCallback,
}

pub record StreamData : Type 0 where
  pub method : Text
  pub path : Text
  pub body : Text

abbrev pub new_stream : StreamData
new_stream = record { method = []; path = []; body = [] }

-- `streams_data_`
abbrev pub Streams : Type 0
Streams = Map ℤ StreamData

-- A call of `request_cb_`.
pub record Invocation : Type 0 where
  pub method : Text
  pub path : Text
  pub body : Text
  pub stream_id : ℤ

abbrev pub invoke : ℤ → StreamData → Invocation
invoke stream_id d = record {
  method = d.method;
  path = d.path;
  body = d.body;
  stream_id = stream_id;
}

-- `streams_data_[stream_id]`, which makes the entry if there is none.
abbrev pub entry : Option StreamData → StreamData
entry none = new_stream
entry (some d) = d

-- The end of `on_frame_recv_cb` and of `on_data_chunk_recv_cb`.
abbrev pub process : ℤ → Option StreamData → Option Invocation
process stream_id none = none
process stream_id (some d) = some (invoke stream_id d)

-- A frame of request headers.
abbrev pub opens_request : Frame → Bool
opens_request frame = is_headers frame.type && is_request frame.cat

pub on_frame_recv_cb : Frame → Streams → Option Invocation
on_frame_recv_cb frame streams =
    if opens_request frame && end_stream frame.flags
    then process frame.stream_id (lookup frame.stream_id streams)
    else none

unfoldable pub store_header : Text → Text → StreamData → StreamData
store_header name value d =
    if name == codes ":method"
    then record d { method = value }
    else if name == codes ":path"
    then record d { path = value }
    else d

pub on_header_cb : Frame → Text → Text → Streams → Streams
on_header_cb frame name value streams =
    if opens_request frame
    then insert frame.stream_id (store_header name value (entry (lookup frame.stream_id streams)))
        streams
    else streams

abbrev pub append_body : Text → StreamData → StreamData
append_body content d = record d { body = d.body ++ content }

pub on_data_chunk_recv_cb : ℕ → ℤ → Text → Streams → Streams × Option Invocation
on_data_chunk_recv_cb flags stream_id content streams =
    let d = append_body content (entry (lookup stream_id streams)) in
    let next = insert stream_id d streams in
    (next, if end_stream flags then process stream_id (lookup stream_id next) else none)

pub on_stream_close_cb : ℤ → Streams → Streams
on_stream_close_cb stream_id streams = erase stream_id streams

-- The callbacks of nghttp2, with what it passes to them.
pub data Event : Type 0 where
  header : Frame → Text → Text → Event
  frame_recv : Frame → Event
  data_chunk : ℕ → ℤ → Text → Event
  stream_close : ℤ → ℕ → Event

unfoldable pub step : Streams → Event → Streams × Option Invocation
unfolding on_frame_recv_cb on_header_cb on_data_chunk_recv_cb on_stream_close_cb
step streams (header frame name value) = (on_header_cb frame name value streams, none)
step streams (frame_recv frame) = (streams, on_frame_recv_cb frame streams)
step streams (data_chunk flags stream_id content) =
    on_data_chunk_recv_cb flags stream_id content streams
step streams (stream_close stream_id error_code) = (on_stream_close_cb stream_id streams, none)

abbrev pub with_call : Option Invocation → List Invocation → List Invocation
with_call none rest = rest
with_call (some c) rest = c ∷ rest

-- The callbacks that one `nghttp2_session_mem_recv` makes, one after another.
unfoldable pub run : Streams → List Event → Streams × List Invocation
run streams [] = (streams, [])
run streams (e ∷ es) =
    let (next, call) = step streams e in
    let (last, calls) = run next es in (last, with_call call calls)

-- The lambda `read_callback` of `send_response`: the body is read as a C string, and one buffer of it
-- is taken for the whole.
unfoldable pub read_callback : Text → ReadCallback
read_callback body room =
    let whole = c_str body in
    let len = if leb (length whole) room then length whole else room in (take len whole, true)

-- The header fields of a response.
abbrev pub status_field : HttpResponse → Nv
status_field r = make_nv_ls (codes ":status") (to_string r.status_code)

abbrev pub content_fields : HttpResponse → List Nv
content_fields r =
    make_nv_ls (codes "content-type") r.content_type
    ∷ make_nv_ls (codes "content-length") (size_to_string (length r.body))
    ∷ []

unfoldable pub send_response : ℤ → HttpResponse → List Nghttp2Call
send_response stream_id r =
    (if is_empty r.body
      then submit_headers stream_id (status_field r ∷ [])
      else submit_response stream_id (status_field r ∷ content_fields r) r.body)
    ∷ []

unfoldable pub write_data : List Nghttp2Call
write_data = session_send ∷ []

-- The lambda `sender`.
unfoldable pub sender : ℤ → HttpResponse → List Nghttp2Call
unfolding send_response write_data
sender stream_id response = send_response stream_id response ++ write_data
