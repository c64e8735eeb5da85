-- ===== src/Http1Proxy/Replies.antt =====
-- How often a session of the proxy for HTTP/1.1 (src/transport/http1_proxy.cpp) writes to its client.
use http2_server.Prelude.{
  ℕ, ◌-◌, ◌+◌, ◌≤◌, ◌<◌, ◌^◌, ◌≡◌, refl, ap, ◌∙◌, Option, none, some, List, [], ◌∷◌, Bool, true,
  false, if◌then◌else◌, length, length-append, arith,
}
use http2_server.Prelude.Text.{Text}
use http2_server.Prelude.Int.{ℤ}
use http2_server.Json.{JsonLib}
use http2_server.Registry.{Registry, Order, ForwardingRule}
use http2_server.HttpClient.{HttpRequest, HttpMessage}
use http2_server.ActiveRequest.{Manager, set_request}
use http2_server.ActiveRequest.Tracking.{WellFormed}
use http2_server.Http1Proxy.{
  Phase, unstarted, reading, resolving, connecting, writing, awaiting, replying, ended, Session,
  Completion, new_session, read_request, start, close, write_response, send_response, forward_found,
  forward_to_backend, conclude, register_directly, dispatch, handle_request, on_completion, live,
}
use http2_server.Http1Proxy.Lifecycle.{IsHeld, started-IsTracked}
use http2_server.Http1Proxy.Held.{request_of-set_request}

-- How many completions a phase still waits for, at most, once the request has been read.
abbrev pub waits_for : Phase → ℕ
waits_for resolving = 5
waits_for connecting = 4
waits_for writing = 3
waits_for awaiting = 2
waits_for replying = 1
waits_for ended = 0
waits_for _ = 6

-- One write to the client is owed until it has been started.
abbrev pub owed : Phase → ℕ
owed replying = 0
owed ended = 0
owed _ = 1

-- The request has been read.
abbrev pub has_read : Phase → Bool
has_read unstarted = false
has_read reading = false
has_read _ = true

-- The writes made and owed are this many, and at most so many completions are left.
record Going (n k : ℕ) (s : Session) : Type 0 where
  pub read : has_read s.phase ≡ true
  pub counted : length s.sent + owed s.phase ≡ n
  pub left : waits_for s.phase ≤ k

recount : {m n k : ℕ} {s : Session} → m ≡ n → Going m k s → Going n k s
recount e g = record { read = g.read; counted = g.counted ∙ e; left = g.left }

if-Going :
    {n k : ℕ} (b : Bool) (x y : Session)
    → Going n k x
    → Going n k y
    → Going n k (if b then x else y)
if-Going true x y p q = p
if-Going false x y p q = q

write_response-Going :
    {k : ℕ} (response : HttpMessage) (s : Session)
    → 1 ≤ k
    → Going (length s.sent + 1) k (write_response response s)
unfolding write_response
write_response-Going response s h = record {
  read = refl;
  counted = omega (arith, length-append s.sent (response ∷ []));
  left = h;
}

ended_of : (p : Phase) → has_read p ≡ true → waits_for p ≤ 0 → p ≡ ended
ended_of ended r l = refl
ended_of unstarted r l = cc
ended_of reading r l = cc
ended_of resolving r l = absurd (omega (arith, l))
ended_of connecting r l = absurd (omega (arith, l))
ended_of writing r l = absurd (omega (arith, l))
ended_of awaiting r l = absurd (omega (arith, l))
ended_of replying r l = absurd (omega (arith, l))

at_end : {n k : ℕ} {s : Session} → Going n k s → k ≤ 0 → (s.phase ≡ ended) × (length s.sent ≡ n)
at_end {s = s} g l =
    let over = ended_of s.phase g.read (omega (arith, g.left)) in
    (over, omega (arith, g.counted, ap owed over))

module _ (J : JsonLib) (order : Order) (prepare_payload : HttpMessage → HttpMessage) where
  send_response-Going :
      {k : ℕ} (status : ℤ) (body : Text) (s : Session)
      → 1 ≤ k
      → Going (length s.sent + 1) k (send_response J order prepare_payload status body s)
  unfolding send_response
  send_response-Going status body s h = write_response-Going _ s h

  conclude-Going :
      {k : ℕ} (message : Text) (o : Option Registry) (s : Session)
      → 1 ≤ k
      → Going (length s.sent + 1) k (conclude J order prepare_payload message o s)
  unfolding conclude
  conclude-Going message none s h = send_response-Going _ _ s h
  conclude-Going message (some r) s h = send_response-Going _ message (record s { registry = r }) h

  register_directly-Going :
      {k : ℕ} (method : Text) (j : Option J.Value) (s : Session)
      → 1 ≤ k
      → Going (length s.sent + 1) k (register_directly J order prepare_payload method j s)
  unfolding register_directly
  register_directly-Going method none s h = conclude-Going [] none s h
  register_directly-Going method (some j) s h =
      if-Going _ _ _ (conclude-Going _ _ s h) (conclude-Going _ _ s h)

  forward_found-Going :
      (o : Option ForwardingRule) (s : Session)
      → Going (length s.sent + 1) 5 (forward_found J order prepare_payload o s)
  unfolding forward_found
  forward_found-Going none s = send_response-Going _ _ s (omega arith)
  forward_found-Going (some rule) s = record { read = refl; counted = refl; left = omega arith }

  dispatch-Going :
      (request : HttpRequest) (s : Session)
      → Going (length s.sent + 1) 5 (dispatch J order prepare_payload (some request) s)
  unfolding dispatch forward_to_backend
  dispatch-Going request s =
      if-Going _ _ _ (register_directly-Going _ _ s (omega arith)) (forward_found-Going _ s)

  -- The first completion.
  handled-Going :
      (request : HttpRequest) (s : Session)
      → IsHeld s
      → Going (length s.sent + 1) 5 (
          handle_request J order prepare_payload
            (record s { manager = set_request s.active_request request s.manager }))
  unfolding handle_request
  handled-Going request s h =
      rw (request_of-set_request s.active_request s.request_id request s.manager h) (
        dispatch-Going request
          (record s { manager = set_request s.active_request request s.manager }))

  -- Every later completion.
  on_completion-Going :
      {n k : ℕ} (phase : Phase) (c : Completion) (s : Session)
      → s.phase ≡ phase
      → has_read phase ≡ true
      → length s.sent + owed phase ≡ n
      → waits_for phase ≤ k
      → Going n (k - 1) (on_completion J order prepare_payload phase c s)
  unfolding on_completion close
  on_completion-Going unstarted c s e r q l = cc
  on_completion-Going reading c s e r q l = cc
  on_completion-Going resolving c s e r q l =
      if-Going c.ec _ _ (recount q (send_response-Going _ _ s (omega arith)))
        (record { read = refl; counted = q; left = omega arith })
  on_completion-Going connecting c s e r q l =
      if-Going c.ec _ _ (recount q (send_response-Going _ _ s (omega arith)))
        (record { read = refl; counted = q; left = omega arith })
  on_completion-Going writing c s e r q l =
      if-Going c.ec _ _ (recount q (send_response-Going _ _ s (omega arith)))
        (record { read = refl; counted = q; left = omega arith })
  on_completion-Going awaiting c s e r q l =
      if-Going c.ec _ _ (recount q (send_response-Going _ _ s (omega arith)))
        (recount q (write_response-Going c.response s (omega arith)))
  on_completion-Going replying c s e r q l = record { read = refl; counted = q; left = omega arith }
  on_completion-Going ended c s e r q l = record {
    read = ap has_read e;
    counted = ap (λ x. length s.sent + owed x) e ∙ q;
    left = ground arith;
  }

  live-Going :
      {n : ℕ} (cs : List Completion) (k : ℕ) (s : Session)
      → Going n k s
      → Going n (k - length cs) (live J order prepare_payload s cs)
  unfolding live
  live-Going [] k s g = record { read = g.read; counted = g.counted; left = omega (arith, g.left) }
  live-Going (c ∷ cs) k s g =
      let h =
        live-Going cs (k - 1) (on_completion J order prepare_payload s.phase c s)
          (on_completion-Going s.phase c s refl g.read g.counted g.left) in
      record { read = h.read; counted = h.counted; left = omega (arith, h.left) }

  first-Going :
      (now : ℕ) (r : Registry) (m : Manager) (c : Completion)
      → WellFormed m
      → m.next_request_id + 1 < 2 ^ 64
      → c.ec ≡ false
      → Going 1 5 (
          on_completion J order prepare_payload
            (start (new_session now r m)).phase
            c
            (start (new_session now r m)))
  unfolding start read_request new_session on_completion
  first-Going now r m c w h e =
      rw e (handled-Going c.request (start (new_session now r m)) (started-IsTracked now r m w h))

  -- A session that is created on a well-formed manager short of the wrap of its counter and
  -- started, and whose request is read without an error: once five further completions are in,
  -- whatever they are, it has ended, and it has started exactly one write to its client.
  pub live_replies :
      (now : ℕ) (r : Registry) (m : Manager) (c : Completion) (cs : List Completion)
      → WellFormed m
      → m.next_request_id + 1 < 2 ^ 64
      → c.ec ≡ false
      → 5 ≤ length cs
      → let s = live J order prepare_payload (start (new_session now r m)) (c ∷ cs) in
        (s.phase ≡ ended) × (length s.sent ≡ 1)
  unfolding live
  live_replies now r m c cs w h e l =
      at_end (live-Going cs 5 _ (first-Going now r m c w h e)) (omega arith)
