-- ===== src/World.antt =====
-- The state that the handlers of the server share, and the monad in which they run: they change that
-- state and may throw. What was changed before an exception stays changed.
--
-- A `ResponseSender` (src/transport/common.h) is a lambda of a session that only captures that
-- session; it is kept as the session's number, and a call of it is a `Reply` at the end of `sent`.
-- The lambda that `forward_request` gives to `HttpClient` captures a sender and a stream id; it is
-- kept as that pair.
pub mod Answers
pub mod Appends
use http2_server.Prelude.{ℕ, ◌≡◌, refl, Option, none, some, List, [], ◌∷◌, ◌++◌, Bool, true, false}
use http2_server.Prelude.Int.{ℤ}
use http2_server.Common.{HttpResponse}
use http2_server.HttpClient.{Connection}
use http2_server.Registry.{Registry}

abbrev pub ResponseSender : Type 0
ResponseSender = ℕ

pub record Reply : Type 0 where
  pub sender : ResponseSender
  pub stream_id : ℤ
  pub response : HttpResponse

pub record Captured : Type 0 where
  pub sender : ResponseSender
  pub stream_id : ℤ

pub record World : Type 0 where
  pub registry : Registry
  -- `forwarding_handler_` has been set.
  pub initialized : Bool
  pub sent : List Reply
  -- The requests that `http_client_` has started.
  pub calls : List (Connection Captured)

-- `none` is an exception.
abbrev pub Exec : Type 0 → Type 0
Exec A = World → Option A × World

module _ {A : Type 0} where
  unfoldable pub pure : A → Exec A
  pure a w = (some a, w)

  unfoldable pub throw : Exec A
  throw w = (none, w)

  -- A call that does not touch the shared state and may throw.
  unfoldable pub lift : Option A → Exec A
  lift o w = (o, w)

  unfoldable pub gets : (World → A) → Exec A
  gets f w = (some (f w), w)

unfoldable pub modify : (World → World) → Exec (Unit {0})
modify f w = (some tt, f w)

module _ {A B : Type 0} where
  continue : Option A → (A → Exec B) → Exec B
  continue none f w = (none, w)
  continue (some a) f w = f a w

  infixl 5 ◌>>=◌ ◌>>◌
  -- To open this is to open `pure`, `throw`, `lift`, `gets` and `modify` too.
  unfoldable pub ◌>>=◌ : Exec A → (A → Exec B) → Exec B
  unfolding continue pure throw lift gets modify
  ◌>>=◌ m f w = continue (m w).0 f (m w).1

  abbrev pub ◌>>◌ : Exec A → Exec B → Exec B
  m >> n = m >>= λ _. n

handled : {A : Type 0} → Option A → Exec A → Exec A
handled none handler w = handler w
handled (some a) handler w = (some a, w)

-- `try { m } catch (const std::exception&) { handler }`
unfoldable pub try_catch : {A : Type 0} → Exec A → Exec A → Exec A
unfolding handled
try_catch m handler w = handled (m w).0 handler (m w).1

-- `p_sender(stream_id, response)`
unfoldable pub respond : ResponseSender → ℤ → HttpResponse → Exec (Unit {0})
respond sender stream_id response w = (
  some tt,
  record w {
    sent = w.sent ++ record { sender = sender; stream_id = stream_id; response = response } ∷ [];
  },
)
