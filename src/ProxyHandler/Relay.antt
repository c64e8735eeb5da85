-- ===== src/ProxyHandler/Relay.antt =====
-- What a call of `http_client_` sends back, completion by completion.
use http2_server.Prelude.{
  ℕ, ◌≡◌, refl, sym, ap, Option, none, some, List, [], ◌∷◌, ◌++◌, length, append-nil, is_empty,
  if◌then◌else◌, arith,
}
use http2_server.Prelude.Int.{pos}
use http2_server.Common.{http_response}
use http2_server.HttpClient.{Connection, Completion, Outcome, complete}
use http2_server.World.{World, Captured, Reply, respond}
use http2_server.ProxyHandler.{
  complete_at, call_back, network_event, forward_reply, request_failed_body,
}

-- The reply for an outcome.
abbrev pub reply_to : Captured → Outcome → Reply
reply_to c o = record {
  sender = c.sender;
  stream_id = c.stream_id;
  response =
      if is_empty o.error
      then http_response o.response.status_code o.response.body
      else http_response (pos 502) request_failed_body;
}

abbrev pub replies_to : Captured → Option Outcome → List Reply
replies_to c none = []
replies_to c (some o) = reply_to c o ∷ []

pub complete_at-length :
    (ks : List (Connection Captured)) (k : Connection Captured) (c : Completion)
    → complete_at (length ks) c (ks ++ k ∷ []) ≡ (
      ks ++ (complete k c).0 ∷ [],
      elim (complete k c).1 [ none ↦ none | some o ↦ some (k.callback, o) ],
    )
unfolding complete_at
complete_at-length [] k c = refl
complete_at-length (j ∷ ks) k c =
    ap (λ (x : List (Connection Captured) × Option (Captured × Outcome)). (j ∷ x.0, x.1))
      (complete_at-length ks k c)

call_back-replies :
    (c : Captured) (o : Option Outcome) (w : World)
    → call_back (elim o [ none ↦ none | some x ↦ some (c, x) ]) w
      ≡ (some tt, record w { sent = w.sent ++ replies_to c o })
unfolding call_back forward_reply respond http2_server.World.pure
call_back-replies c none w = ap (λ x. (some tt, record w { sent = x })) (sym (append-nil w.sent))
call_back-replies c (some o) w = ground arith

-- A completion of the latest call: the call moves on, and what it calls back with is sent.
pub network_event-latest :
    (w : World) (ks : List (Connection Captured)) (k : Connection Captured) (c : Completion)
    → network_event (length ks) c (record w { calls = ks ++ k ∷ [] }) ≡ (
      some tt,
      record w {
        calls = ks ++ (complete k c).0 ∷ [];
        sent = w.sent ++ replies_to k.callback (complete k c).1;
      },
    )
unfolding network_event
network_event-latest w ks k c = rw (complete_at-length ks k c) (
    call_back-replies k.callback (complete k c).1
      (record w { calls = ks ++ (complete k c).0 ∷ [] }))

-- The reply that a callback makes, if one is called.
abbrev pub reply_of : Option (Captured × Outcome) → List Reply
reply_of none = []
reply_of (some (c, o)) = reply_to c o ∷ []

call_back-reply :
    (called : Option (Captured × Outcome)) (w : World)
    → call_back called w ≡ (some tt, record w { sent = w.sent ++ reply_of called })
unfolding call_back forward_reply respond http2_server.World.pure
call_back-reply none w = ap (λ x. (some tt, record w { sent = x })) (sym (append-nil w.sent))
call_back-reply (some (c, o)) w = ground arith

-- A completion of any call: it moves on, and what it calls back with is sent.
pub network_event_lem :
    (k : ℕ) (c : Completion) (w : World)
    → network_event k c w ≡ (
      some tt,
      record w {
        calls = (complete_at k c w.calls).0;
        sent = w.sent ++ reply_of (complete_at k c w.calls).1;
      },
    )
unfolding network_event
network_event_lem k c w =
    call_back-reply (complete_at k c w.calls).1 (record w { calls = (complete_at k c w.calls).0 })
