-- ===== src/Tests/Clients.antt =====
-- A client for HTTP/2 (src/transport/http2_client.cpp) at concrete inputs.
use mathlib.Core.Option
use http2_server.Prelude.{
  ℕ, ◌+◌, ◌≤◌, ◌≡◌, ◌≢◌, refl, none, some, List, [], ◌∷◌, ◌++◌, true, false, ◌==◌, nat_eq, keep_if,
  take, arith,
}
use http2_server.Prelude.Text.{Text, codes}
use http2_server.Prelude.Int.{ℤ, pos, int_eq}
use http2_server.Prelude.Decimal.{stoi}
use http2_server.Prelude.Map.{lookup}
use http2_server.Nghttp2.{
  Frame, data_frame, other_headers, headers_frame, request_headers, response_headers,
}
use http2_server.Session.{Event, header, frame_recv, data_chunk, stream_close, run}
use http2_server.Session.Streams.{on_stream}
use http2_server.Session.Requests.{begun, chunks_of, parts, last_of}
use http2_server.Http2Client.{
  StreamData, Answer, Table, Request, Client, new_client, no_response, http2_response, read,
  read_callback, prepare_request, content_headers, send_request, connect_and_send,
}
use http2_server.Http2Client.Callbacks.{receive}
use http2_server.Http2Client.Streams.{for_stream}
use http2_server.Http2Client.Responses.{last_status, collected}
use http2_server.Http2Client.Connection.{
  Completion, Input, ask, completed, live, input, take_out, finish, on_resolved, handle_connect,
  on_connected,
}
use http2_server.Http2Client.Accounting.{tally, sends, held_by, made_to, requests}
use http2_server.Http2Client.Once.{live_at_most_once}
use http2_server.Http2Client.Replies.{response_events, response_arrives}
use http2_server.Http2Client.Streams.{closes}
use http2_server.Http2Client.Responses.{IsReadable}
use http2_server.Session.{sender, send_response}
use http2_server.Common.{HttpResponse, http_response, make_nv_ls}
use http2_server.Prelude.Decimal.{to_string, size_to_string}
use http2_server.Prelude.Text.{c_str, text_beq}
use http2_server.Prelude.{All}
use http2_server.Http2Client.Lifetime.{live_read_responds}
use http2_server.Http2Client.{
  setup_nghttp2_client, send_http2_request, store_stream, read_data, write_data,
}
use http2_server.Prelude.Map.{insert}
use http2_server.Http2Client.Arrival.{asked_for, fields_of, request_arrives}
use http2_server.Http2Client.Overlap
use http2_server.Http2Client.Overlap.{fields_to, connected_authority}
use http2_server.Nghttp2.{submit_request}

abbrev waiting : StreamData ℕ
waiting = record { callback = 7; response = no_response; body_buffer = [] }

abbrev two_streams : Table ℕ
two_streams = record {
  streams = (pos 1, waiting) ∷ (pos 3, record waiting { callback = 8 }) ∷ [];
  data_providers = [];
}

abbrev head_of : ℤ → Frame
head_of i = record { type = headers_frame; cat = response_headers; flags = 4; stream_id = i }

abbrev answered : List Event
answered =
    header (head_of (pos 1)) (codes ":status") (codes "200")
    ∷ data_chunk 0 (pos 3) (codes "x")
    ∷ data_chunk 0 (pos 1) (codes "ok")
    ∷ []

two_hundred : stoi (codes "200") ≢ none
unfolding stoi codes
two_hundred e = ground arith

abbrev asked_by : ℕ → Input ℕ
asked_by mine =
    ask (codes "localhost") (pos 8080)
      (record { method = codes "POST"; path = codes "/a"; body = codes "ab"; callback = mine })

abbrev done : Completion
done = record { ec = none; created = true; stream_id = pos 1; events = []; refused = false }

abbrev some_inputs : List (Input ℕ)
some_inputs =
    asked_by 7
    ∷ completed 0 done
    ∷ completed 0 (record done { ec = some (codes "refused") })
    ∷ asked_by 8
    ∷ []

abbrev after_all : Client ℕ
after_all = Option.get_or (live new_client some_inputs) new_client

live_at_most_once_example :
    tally (made_to (λ c. c == 7)) after_all.called
      + tally (sends (λ c. c == 7)) after_all.pending
      + tally (held_by (λ c. c == 7)) after_all.table.streams
    ≤ tally (requests (λ c. c == 7)) some_inputs
live_at_most_once_example =
    live_at_most_once (λ c. c == 7) some_inputs after_all
      (unfold live in
        unfold input in
        unfold send_request in
        unfold connect_and_send in
        unfold take_out in
        unfold finish in unfold on_resolved in unfold handle_connect in unfold on_connected in refl)

abbrev request_head : Frame
request_head = record { type = headers_frame; cat = request_headers; flags = 4; stream_id = pos 1 }

abbrev put : Client ℕ
put = record new_client { current_host = codes "localhost"; current_port = pos 8080 }

-- The events of a request with a body of three bytes, of which two fit, and come one by one.
abbrev pieces : List (ℕ × Text)
pieces = (1, codes "a") ∷ (1, codes "b") ∷ []

abbrev data_end : Frame
data_end = record { type = data_frame; cat = other_headers; flags = 1; stream_id = pos 1 }

abbrev arriving : List Event
arriving =
    begun request_head
      (fields_of
        (http2_server.Http2Client.request_headers (codes "PUT") (codes "/a") (codes "abc") put))
      (chunks_of (pos 1) pieces ++ frame_recv data_end ∷ [])

request_arrives_example :
    (keep_if (http2_server.Session.Streams.for_stream (pos 1)) (run [] arriving).1
      ≡ asked_for (pos 1) (codes "PUT") (codes "/a") (parts [] pieces))
    × (last_of [] (parts [] pieces) ≡ take 2 (codes "abc"))
request_arrives_example =
    request_arrives (codes "PUT") (codes "/a") (codes "abc") put [] arriving (pos 1) request_head
      pieces (frame_recv data_end ∷ []) 2 (5 ∷ []) (unfold codes in refl)
      (unfold codes in omega arith) (unfold codes in omega arith) tt (unfold lookup in refl)
      (record { request = refl; stream = refl; ending = refl }) (refl, (refl, tt)) (refl, tt)
      (unfold prepare_request in
        unfold read_callback in
        unfold http2_server.Http2Client.request_headers in unfold codes in refl)
      (unfold http2_server.Http2Client.request_headers in
        unfold content_headers in unfold codes in refl)

abbrev sent_back : HttpResponse
sent_back = http_response (pos 200) (codes "ok")

-- The response on stream 1, whose data comes in two chunks, after a chunk of stream 3.
abbrev cut : List (ℕ × Text)
cut = (1, codes "o") ∷ (1, codes "k") ∷ []

abbrev coming : List Event
coming =
    data_chunk 0 (pos 3) (codes "x")
    ∷ response_events sent_back (pos 1) 4 cut (frame_recv data_end ∷ [])

coming-own :
    keep_if (on_stream (pos 1)) coming
    ≡ response_events sent_back (pos 1) 4 cut (frame_recv data_end ∷ [])
unfolding sender send_response write_data codes
coming-own = refl

coming-open : All (λ e. closes (pos 1) e ≡ false) coming
unfolding sender send_response write_data codes
coming-open = (refl, (refl, (refl, (refl, (refl, (refl, (refl, (refl, tt))))))))

coming-IsReadable : All IsReadable (coming ++ stream_close (pos 1) 0 ∷ [])
unfolding sender send_response write_data codes make_nv_ls text_beq stoi to_string size_to_string
coming-IsReadable = (
  tt,
  ((λ same e. ground arith), ((λ same e. cc), ((λ same e. cc), (tt, (tt, (tt, (tt, (tt, tt)))))))),
)

response_arrives_example :
    (v : Table ℕ) × (answers : List (Answer ℕ)) × (receive two_streams
        (coming ++ stream_close (pos 1) 0 ∷ [])
      ≡ some (v, answers))
    × (lookup (pos 1) v.streams ≡ none)
    × (keep_if (for_stream (pos 1)) answers
        ≡ record {
          stream_id = pos 1;
          callback = 7;
          response = http2_response (pos 200) (take 10 (c_str (codes "ok")));
          error = [];
        }
          ∷ [])
response_arrives_example =
    response_arrives sent_back (pos 1) 4 cut (frame_recv data_end ∷ []) 10 [] coming [] 0 7
      two_streams (refl, tt)
      (unfold codes in unfold http2_server.Session.read_callback in unfold c_str in refl)
      (omega arith) (((λ e. cc), tt), (tt, tt)) (unfold lookup in refl) coming-own coming-open
      coming-IsReadable

abbrev connecting : List (Input ℕ)
connecting = asked_by 7 ∷ completed 0 done ∷ completed 0 done ∷ []

abbrev connected : Client ℕ
connected = Option.get_or (live new_client connecting) new_client

connected-live : live new_client connecting ≡ some connected
unfolding live input send_request connect_and_send take_out finish on_resolved handle_connect
    on_connected
connected-live = refl

connected-reads : take_out 0 connected.pending ≡ some (read, [])
unfolding live input send_request connect_and_send take_out finish on_resolved handle_connect
    on_connected setup_nghttp2_client send_http2_request store_stream prepare_request read_data
    write_data codes
connected-reads = refl

abbrev opened : StreamData ℕ
opened = record { callback = 7; response = no_response; body_buffer = [] }

connected-opened : lookup (pos 1) connected.table.streams ≡ some opened
unfolding live input send_request connect_and_send take_out finish on_resolved handle_connect
    on_connected setup_nghttp2_client send_http2_request store_stream prepare_request read_data
    write_data codes lookup insert
connected-opened = refl

abbrev bringing : Completion
bringing = record done { events = answered ++ stream_close (pos 1) 0 ∷ [] }

live_read_responds_example :
    (next : Client ℕ) × (answers : List (Answer ℕ)) × (input (completed 0 bringing) connected
      ≡ some next)
    × (lookup (pos 1) next.table.streams ≡ none)
    × (next.called ≡ connected.called ++ answers)
    × (keep_if (for_stream (pos 1)) answers
        ≡ record {
          stream_id = pos 1;
          callback = 7;
          response =
              http2_response
                (last_status (pos 1) (pos 0) answered)
                ([] ++ collected (pos 1) answered);
          error = [];
        }
          ∷ [])
live_read_responds_example =
    live_read_responds connecting connected 0 [] true false (pos 1) (pos 1) answered [] 0 opened
      connected-live connected-reads connected-opened (refl, (refl, (refl, tt)))
      ((λ same. two_hundred), (tt, (tt, (tt, tt))))

-- A second request, to another host, is asked for before the first is connected.
abbrev overtaken : List (Input ℕ)
overtaken =
    asked_by 7
    ∷ ask (codes "other") (pos 80)
        (record { method = codes "GET"; path = codes "/b"; body = []; callback = 8 })
    ∷ completed 0 done
    ∷ []

abbrev overtaken_client : Client ℕ
overtaken_client = Option.get_or (live new_client overtaken) new_client

overtaken-live : live new_client overtaken ≡ some overtaken_client
unfolding live input send_request connect_and_send take_out finish on_resolved handle_connect
overtaken-live = refl

abbrev first_request : Request ℕ
first_request = record { method = codes "POST"; path = codes "/a"; body = codes "ab"; callback = 7 }

connected_authority_example :
    (Overlap.requests (on_connected done first_request overtaken_client).submitted
      ≡ Overlap.requests overtaken_client.submitted
        ++ submit_request (fields_to (codes "other", pos 80) first_request) true ∷ [])
    × ((on_connected done first_request overtaken_client).request_body_storage ≡ first_request.body)
unfolding codes
connected_authority_example =
    connected_authority overtaken overtaken_client done first_request overtaken-live refl
