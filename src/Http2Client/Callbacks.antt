-- ===== src/Http2Client/Callbacks.antt =====
-- The callbacks that nghttp2 makes of a client (src/transport/http2_client.cpp): each changes the table
-- of streams, and the end of a stream calls the request's callback.
use mathlib.Core.Option
use http2_server.Prelude.{Option, none, some, List, [], ◌∷◌, ◌++◌, ◌==◌, ◌&&◌, if◌then◌else◌}
use http2_server.Prelude.Text.{Text, codes, text_eq}
use http2_server.Prelude.Int.{ℤ, int_eq}
use http2_server.Prelude.Decimal.{stoi}
use http2_server.Prelude.Map.{lookup, insert, erase}
use http2_server.Nghttp2.{Frame, is_headers, is_response}
use http2_server.Session.{Event, header, frame_recv, data_chunk, stream_close}
use http2_server.Http2Client.{StreamData, Answer, Table}

module _ {C : Type 0} where
  -- The callbacks of nghttp2. `on_frame_recv_cb` only logs.
  abbrev pub on_frame_recv_cb : Frame → Table C → Table C
  on_frame_recv_cb frame t = t

  abbrev pub grow : Text → StreamData C → StreamData C
  grow content d = record d { body_buffer = d.body_buffer ++ content }

  -- `it->second` is replaced, if there is an entry.
  abbrev pub update : ℤ → Option (StreamData C) → Table C → Table C
  update stream_id none t = t
  update stream_id (some d) t = record t { streams = insert stream_id d t.streams }

  unfoldable pub on_data_chunk_recv_cb : ℤ → Text → Table C → Table C
  on_data_chunk_recv_cb stream_id content t =
      update stream_id (Option.map (grow content) (lookup stream_id t.streams)) t

  -- The call at the end of a stream: the status as it stands, and the bytes collected.
  abbrev pub answer : ℤ → StreamData C → Answer C
  answer stream_id d = record {
    stream_id = stream_id;
    callback = d.callback;
    response = record (d.response) { body = d.body_buffer };
    error = [];
  }

  unfoldable pub on_stream_close_cb : ℤ → Table C → Table C × Option (Answer C)
  on_stream_close_cb stream_id t = (
    record {
      streams = erase stream_id t.streams;
      data_providers = erase stream_id t.data_providers;
    },
    Option.map (answer stream_id) (lookup stream_id t.streams),
  )

  abbrev pub with_status : ℤ → StreamData C → StreamData C
  with_status code d = record d { response = record (d.response) { status_code = code } }

  -- The status that a header sets. `none` is the exception of `std::stoi`.
  abbrev pub store_header : Text → Text → StreamData C → Option (StreamData C)
  store_header name value d =
      if name == codes ":status"
      then elim (stoi value) [ none ↦ none | some code ↦ some (with_status code d) ]
      else some d

  abbrev pub on_entry :
      (StreamData C → Option (StreamData C))
      → ℤ
      → Option (StreamData C)
      → Table C
      → Option (Table C)
  on_entry f stream_id none t = some t
  on_entry f stream_id (some d) t = elim (f d) [
    | none ↦ none
    | some e ↦ some (update stream_id (some e) t)
  ]

  unfoldable pub on_header_cb : Frame → Text → Text → Table C → Option (Table C)
  on_header_cb frame name value t =
      if is_headers frame.type && is_response frame.cat
      then on_entry (store_header name value) frame.stream_id (lookup frame.stream_id t.streams) t
      else some t

  -- One callback of nghttp2; `none` is an exception.
  unfoldable pub step : Table C → Event → Option (Table C × Option (Answer C))
  step t (header frame name value) = elim (on_header_cb frame name value t) [
    | none ↦ none
    | some u ↦ some (u, none)
  ]
  step t (frame_recv frame) = some (on_frame_recv_cb frame t, none)
  step t (data_chunk flags stream_id content) =
      some (on_data_chunk_recv_cb stream_id content t, none)
  step t (stream_close stream_id error_code) = some (on_stream_close_cb stream_id t)

  abbrev pub with_answer : Option (Answer C) → List (Answer C) → List (Answer C)
  with_answer none later = later
  with_answer (some a) later = a ∷ later

  -- The callbacks that one `nghttp2_session_mem_recv` makes, one after another.
  unfoldable pub receive : Table C → List Event → Option (Table C × List (Answer C))
  receive t [] = some (t, [])
  receive t (e ∷ es) = elim (step t e) [
    | none ↦ none
    | some (u, called) ↦ elim (receive u es) [
      | none ↦ none
      | some (v, later) ↦ some (v, with_answer called later)
    ]
  ]
