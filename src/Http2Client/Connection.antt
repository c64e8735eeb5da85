-- ===== src/Http2Client/Connection.antt =====
-- The asynchronous operations of `Http2Client` (src/transport/http2_client.cpp), from the name of the
-- host to the read loop, for all requests of one client.
use http2_server.Prelude.{
  ℕ, zero, suc, Option, none, some, List, [], ◌∷◌, ◌++◌, Bool, if◌then◌else◌,
}
use http2_server.Prelude.Text.{Text, codes}
use http2_server.Prelude.Int.{ℤ}
use http2_server.Session.{Event}
use http2_server.Http2Client.{
  Answer, failure, Request, Operation, resolve, connect, read, Table, Client, begin_operation,
  call_back, send_request, write_data, setup_nghttp2_client, send_http2_request, read_data,
}
use http2_server.Http2Client.Callbacks.{receive}

-- The completion of an operation: its error message if it failed, what nghttp2 returns to the calls
-- that its handler makes, and the callbacks that nghttp2 makes for the bytes of a read.
pub record Completion : Type 0 where
  pub ec : Option Text
  pub created : Bool
  pub stream_id : ℤ
  pub events : List Event
  pub refused : Bool

module _ {C : Type 0} where
  unfoldable pub handle_connect : Option Text → Request C → Client C → Client C
  handle_connect (some message) r c =
      call_back (failure r.callback (codes "Failed to resolve: ") message) c
  handle_connect none r c = begin_operation (connect r) c

  -- The lambda given to `async_resolve`.
  unfoldable pub on_resolved : Option Text → Request C → Client C → Client C
  on_resolved (some message) r c =
      call_back (failure r.callback (codes "Failed to resolve host: ") message) c
  on_resolved none r c = handle_connect none r c

  -- The lambda given to `async_connect`.
  unfoldable pub on_connected : Completion → Request C → Client C → Client C
  on_connected k r c = elim k.ec [
    | some message ↦ call_back (failure r.callback (codes "Failed to connect: ") message) c
    | none ↦ read_data (
        send_http2_request r.method r.path r.body r.callback k.stream_id
          (setup_nghttp2_client k.created c))
  ]

  -- What `nghttp2_session_mem_recv` has done to the client.
  unfoldable pub fed : Table C × List (Answer C) → Client C → Client C
  fed (t, answers) c = record c { table = t; called = c.called ++ answers }

  -- The lambda given to `async_read_some`; `none` is an exception.
  unfoldable pub on_read : Completion → Client C → Option (Client C)
  on_read k c = elim k.ec [
    | some message ↦ some c
    | none ↦ elim (receive c.table k.events) [
      | none ↦ none
      | some received ↦
          some (if k.refused then fed received c else read_data (write_data (fed received c)))
    ]
  ]

  unfoldable pub finish : Operation C → Completion → Client C → Option (Client C)
  finish (resolve r) k c = some (on_resolved k.ec r c)
  finish (connect r) k c = some (on_connected k r c)
  finish read k c = on_read k c

  -- The operation at a position, and the others.
  unfoldable pub take_out : ℕ → List (Operation C) → Option (Operation C × List (Operation C))
  take_out i [] = none
  take_out zero (o ∷ os) = some (o, os)
  take_out (suc i) (o ∷ os) = elim (take_out i os) [
    | none ↦ none
    | some (p, rest) ↦ some (p, o ∷ rest)
  ]

-- What its user and the event loop bring to a client.
pub data Input (C : Type 0) : Type 0 where
  ask : Text → ℤ → Request C → Input C
  completed : ℕ → Completion → Input C

module _ {C : Type 0} where
  -- A completion of an operation that is not under way does not occur.
  unfoldable pub input : Input C → Client C → Option (Client C)
  input (ask host port r) c = some (send_request host port r.method r.path r.body r.callback c)
  input (completed i k) c = elim (take_out i c.pending) [
    | none ↦ some c
    | some (o, rest) ↦ finish o k (record c { pending = rest })
  ]

  -- The client after some inputs; `none` if an exception escaped.
  unfoldable pub live : Client C → List (Input C) → Option (Client C)
  live c [] = some c
  live c (x ∷ xs) = elim (input x c) [ none ↦ none | some d ↦ live d xs ]
