-- ===== src/Nghttp2.antt =====
-- What the program exchanges with nghttp2, which is not part of the repository: the frames and flags
-- that it hands to callbacks, the calls that the program makes of it, and how it reads a body.
use http2_server.Prelude.{
  ℕ, ◌%◌, Bool, List, [], ◌∷◌, ◌++◌, if◌then◌else◌, true, false, Option, none, ◌≡◌, length,
}
use http2_server.Prelude.{nat_beq}
use http2_server.Prelude.Text.{Text}
use http2_server.Prelude.Int.{ℤ}
use http2_server.Common.{Nv}

-- `frame->hd.type`
pub data FrameType : Type 0 where
  data_frame headers_frame priority_frame rst_stream_frame settings_frame : FrameType
  push_promise_frame ping_frame goaway_frame window_update_frame other_frame : FrameType

-- `frame->headers.cat`
pub data Category : Type 0 where
  request_headers response_headers push_response_headers other_headers : Category

pub record Frame : Type 0 where
  pub type : FrameType
  pub cat : Category
  pub flags : ℕ
  pub stream_id : ℤ

-- `NGHTTP2_FLAG_END_STREAM` is the lowest bit.
abbrev pub end_stream : ℕ → Bool
end_stream flags = nat_beq (flags % 2) 1

abbrev pub is_headers : FrameType → Bool
is_headers headers_frame = true
is_headers _ = false

abbrev pub is_request : Category → Bool
is_request request_headers = true
is_request _ = false

abbrev pub is_response : Category → Bool
is_response response_headers = true
is_response _ = false

pub data Setting : Type 0 where
  max_concurrent_streams initial_window_size : Setting

-- The calls that change the library's session, in the order in which they are made.
pub data Nghttp2Call : Type 0 where
  submit_settings : List (Setting × ℕ) → Nghttp2Call
  -- `nghttp2_submit_headers` with the flag END_STREAM.
  submit_headers : ℤ → List Nv → Nghttp2Call
  -- `nghttp2_submit_response` with the body to which the data provider points.
  submit_response : ℤ → List Nv → Text → Nghttp2Call
  session_client_new : Nghttp2Call
  -- `nghttp2_submit_request` with or without a data provider.
  submit_request : List Nv → Bool → Nghttp2Call
  session_send : Nghttp2Call

-- A data provider's `read_callback`: the bytes copied into a buffer of this length, and whether the
-- flag EOF was set.
abbrev pub ReadCallback : Type 0
ReadCallback = ℕ → Text × Bool

-- The library calls `read_callback` for one DATA frame after another, with the room that the frame
-- has, until the flag EOF is set.
abbrev pub collect : ReadCallback → List ℕ → Text
collect read [] = []
collect read (room ∷ rooms) =
    let rest = collect read rooms in if (read room).1 then (read room).0 else (read room).0 ++ rest

-- What a `send_callback` returns: the number of bytes, or `NGHTTP2_ERR_CALLBACK_FAILURE`.
pub data SendResult : Type 0 where
  bytes_sent : ℕ → SendResult
  callback_failure : SendResult

-- `boost::asio::write` on a connected socket: how many bytes it has written, and its error's message.
abbrev pub AsioWrite : Type 0
AsioWrite = Text → ℕ × Option Text

-- It writes everything unless it reports an error.
abbrev pub WritesAll : AsioWrite → Type 0
WritesAll write = (content : Text) → (write content).1 ≡ none → (write content).0 ≡ length content
