-- ===== src/Http2Site.antt =====
-- The HTTP/2 server with all its connections (src/core/server.cpp, src/transport/session.cpp and
-- src/main.cpp together): the sessions and the calls to backends complete in any order, a request
-- that a session passes on is handled while its bytes are read, and each reply goes through `sender`
-- to the nghttp2 session of the connection that it was made for.
pub mod Delivery
pub mod Changes
pub mod Serving
pub mod Refinement
pub mod Answers
pub mod Dangling
pub mod Lives
pub mod Survival
use http2_server.Prelude.{
  ℕ, Option, none, some, List, [], ◌∷◌, ◌++◌, Bool, true, false, map, length, drop, if◌then◌else◌,
  member_at, replace_at,
}
use http2_server.Prelude.Int.{ℤ}
use http2_server.Json.{JsonLib}
use http2_server.Registry.{Order}
use http2_server.HttpClient
use http2_server.HttpClient.{Beast}
use http2_server.World.{World, Reply}
use http2_server.Server.{Event, request, network, serve, initial}
use http2_server.Session.{Streams, Invocation, sender, run, on_stream_close_cb}
use http2_server.Session.Connection.{
  Connection, Completion, Waiting, reading, read, new, start, on_completion,
}

-- The position of a session is its number as a sender.
pub record Site : Type 0 where
  pub world : World
  pub sessions : List Connection

abbrev pub new_site : Site
new_site = record { world = initial; sessions = [] }

-- A connection that is accepted, with TLS or without; a completion for a session; a completion for a
-- call of `http_client_`; a stream of a session that closes as nghttp2 sends its last frame.
pub data Move : Type 0 where
  accepted : Bool → Move
  completion : ℕ → Completion → Move
  backend : ℕ → HttpClient.Completion → Move
  sent_last : ℕ → ℤ → Move

-- `thrown` is an exception that escaped, and `dangling` a reply through a session that does not exist.
pub data Outcome : Type 0 where
  going : Site → Outcome
  thrown dangling : Outcome

-- A number that no session has yet stands for one that has not been started.
abbrev pub known : Option Connection → Connection
known none = new false
known (some x) = x

abbrev pub session_at : ℕ → List Connection → Connection
session_at n xs = known (member_at n xs)

abbrev pub is_reading : Waiting → Bool
is_reading reading = true
is_reading _ = false

-- A `Session` is alive and has its `session_` exactly while a read is under way or is being handled.
abbrev pub has_session : ℕ → List Connection → Bool
has_session n xs = is_reading (session_at n xs).waiting

-- A call of the lambda `sender` of a session.
abbrev pub send_through : Reply → Connection → Connection
send_through r x = record x { calls = x.calls ++ sender r.stream_id r.response }

-- The calls of senders, one after another; `none` is a call through a session that does not exist.
unfoldable pub deliver : List Reply → List Connection → Option (List Connection)
deliver [] xs = some xs
deliver (r ∷ rs) xs =
    let rest = deliver rs (replace_at r.sender (send_through r (session_at r.sender xs)) xs) in
    if has_session r.sender xs then rest else none

-- The requests that a session passes on as an operation completes.
abbrev pub passed : Waiting → Completion → Streams → List Invocation
passed reading (read false events refused) streams = (run streams events).1
passed _ _ streams = []

abbrev pub asked : ℕ → Invocation → Event
asked n c = request c.method c.path c.body c.stream_id n

-- `std::make_shared<Session>(...)->start()`
unfoldable pub accept : Bool → Site → Site
accept use_ssl s = record s { sessions = s.sessions ++ start (new use_ssl) ∷ [] }

abbrev pub change_session : ℕ → (Connection → Connection) → Site → Site
change_session n f s = record s { sessions = replace_at n (f (session_at n s.sessions)) s.sessions }

abbrev pub and_then : Outcome → (Site → Site) → Outcome
and_then (going s) f = going (f s)
and_then thrown f = thrown
and_then dangling f = dangling

abbrev pub end_stream_of : Connection → ℤ → Connection
end_stream_of x i =
    if is_reading x.waiting then record x { streams = on_stream_close_cb i x.streams } else x

abbrev pub delivered : World → Option (List Connection) → Outcome
delivered w none = dangling
delivered w (some xs) = going (record { world = w; sessions = xs })

-- What the handlers have replied is sent.
abbrev pub send_new : ℕ → List Connection → Option World → Outcome
send_new n xs none = thrown
send_new n xs (some w) = delivered w (deliver (drop n w.sent) xs)

module _ (J : JsonLib) (beast : Beast) (order : Order) where
  unfoldable pub handle_events : List Event → Site → Outcome
  unfolding deliver
  handle_events es s = send_new (length s.world.sent) s.sessions (serve J beast order s.world es)

  unfoldable pub happen : Move → Site → Outcome
  unfolding handle_events accept
  happen (accepted use_ssl) s = going (accept use_ssl s)
  happen (completion n c) s =
      let x = session_at n s.sessions in
      and_then (handle_events (map (asked n) (passed x.waiting c x.streams)) s)
        (change_session n (λ y. on_completion y.waiting c y))
  happen (backend k c) s = handle_events (network k c ∷ []) s
  happen (sent_last n i) s = going (change_session n (λ x. end_stream_of x i) s)

  abbrev pub resume : Outcome → (Site → Outcome) → Outcome
  resume (going s) rest = rest s
  resume thrown rest = thrown
  resume dangling rest = dangling

  unfoldable pub live : Site → List Move → Outcome
  unfolding happen
  live s [] = going s
  live s (m ∷ ms) = resume (happen m s) (λ next. live next ms)
