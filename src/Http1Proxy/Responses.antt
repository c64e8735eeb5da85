-- ===== src/Http1Proxy/Responses.antt =====
-- Which response a session of the proxy for HTTP/1.1 (src/transport/http1_proxy.cpp) writes.
use http2_server.Prelude.{
  ℕ, ◌+◌, ◌^◌, ◌<◌, ◌≡◌, refl, ap, ◌∙◌, Option, none, some, List, [], ◌∷◌, ◌++◌, Bool, true, false,
  if◌then◌else◌, ◌==◌, arith,
}
use http2_server.Prelude.Text.{Text, codes, text_eq}
use http2_server.Prelude.Int.{ℤ, pos}
use http2_server.Json.{JsonLib}
use http2_server.Registry.{Registry, Order, ForwardingRule, find_backend}
use http2_server.HttpClient.{HttpRequest, HttpMessage}
use http2_server.ActiveRequest.{Manager, set_request, set_state, forwarding}
use http2_server.ActiveRequest.Tracking.{WellFormed}
use http2_server.Http1Proxy.{
  Phase, unstarted, reading, resolving, connecting, writing, awaiting, replying, ended, Session,
  Completion, new_session, read_request, start, close, write_response, send_response, forward_found,
  forward_to_backend, registration, unregistration, conclude, register_directly, dispatch,
  handle_request, on_completion, live,
}
use http2_server.Http1Proxy.Lifecycle.{IsHeld, started-IsTracked}
use http2_server.Http1Proxy.Held.{request_of-set_request}
use http2_server.Http1Proxy.Expected.{own_response, registration_response, relayed, expected}

-- The response has been started, or its write has ended.
abbrev is_settled : Phase → Bool
is_settled replying = true
is_settled ended = true
is_settled _ = false

-- This response, and no other, is written.
record Replied (r : HttpMessage) (s : Session) : Type 0 where
  pub settled : is_settled s.phase ≡ true
  pub sent : s.sent ≡ r ∷ []

unsettled : {A : Type 0} {p q : Phase} → p ≡ q → is_settled p ≡ true → is_settled q ≡ false → A
unsettled e h n = absurd (ground (arith, ap is_settled e))

if-Replied :
    {r q : HttpMessage} (b : Bool) (x y : Session)
    → Replied r x
    → Replied q y
    → Replied (if b then r else q) (if b then x else y)
if-Replied true x y p q = p
if-Replied false x y p q = q

write_response-Replied :
    (r : HttpMessage) (s : Session) → s.sent ≡ [] → Replied r (write_response r s)
unfolding write_response
write_response-Replied r s e = record { settled = refl; sent = ap (λ t. t ++ r ∷ []) e }

module _ (J : JsonLib) (order : Order) (prepare_payload : HttpMessage → HttpMessage) where
  on_completion-Replied :
      (r : HttpMessage) (phase : Phase) (c : Completion) (s : Session)
      → s.phase ≡ phase
      → Replied r s
      → Replied r (on_completion J order prepare_payload phase c s)
  unfolding on_completion close
  on_completion-Replied r replying c s e h = record { settled = refl; sent = h.sent }
  on_completion-Replied r ended c s e h = h
  on_completion-Replied r unstarted c s e h = unsettled e h.settled refl
  on_completion-Replied r reading c s e h = unsettled e h.settled refl
  on_completion-Replied r resolving c s e h = unsettled e h.settled refl
  on_completion-Replied r connecting c s e h = unsettled e h.settled refl
  on_completion-Replied r writing c s e h = unsettled e h.settled refl
  on_completion-Replied r awaiting c s e h = unsettled e h.settled refl

  live-Replied :
      (r : HttpMessage) (cs : List Completion) (s : Session)
      → Replied r s
      → Replied r (live J order prepare_payload s cs)
  unfolding live
  live-Replied r [] s h = h
  live-Replied r (c ∷ cs) s h =
      live-Replied r cs (on_completion J order prepare_payload s.phase c s)
        (on_completion-Replied r s.phase c s refl h)

  send_response-Replied :
      (status : ℤ) (body : Text) (s : Session)
      → s.sent ≡ []
      → Replied
          (own_response J order prepare_payload status body)
          (send_response J order prepare_payload status body s)
  unfolding send_response
  send_response-Replied status body s e = write_response-Replied _ s e

  -- A failure is answered, whatever completes afterwards; otherwise the session goes on.
  fails-Replied :
      (b : Bool) (body : Text) (s next : Session) (later : HttpMessage) (cs : List Completion)
      → s.sent ≡ []
      → Replied later (live J order prepare_payload next cs)
      → Replied (if b then own_response J order prepare_payload (pos 502) body else later) (
          live J order prepare_payload
            (if b then send_response J order prepare_payload (pos 502) body s else next)
            cs)
  fails-Replied true body s next later cs e h =
      live-Replied _ cs _ (send_response-Replied (pos 502) body s e)
  fails-Replied false body s next later cs e h = h

  relay-Replied :
      (s : Session) (a b c d : Completion) (cs : List Completion)
      → s.sent ≡ []
      → Replied
          (relayed J order prepare_payload a b c d)
          (live J order prepare_payload (record s { phase = resolving }) (a ∷ b ∷ c ∷ d ∷ cs))
  unfolding live on_completion
  relay-Replied s a b c d cs e = fails-Replied a.ec _ _ _ _ (b ∷ c ∷ d ∷ cs) e (
      fails-Replied b.ec _ _ _ _ (c ∷ d ∷ cs) e (
        fails-Replied c.ec _ _ _ _ (d ∷ cs) e (
          live-Replied _ cs _
            (if-Replied d.ec _ _ (send_response-Replied _ _ _ e) (write_response-Replied _ _ e)))))

  concluded : Text → Option Registry → HttpMessage
  concluded message none =
      own_response J order prepare_payload (pos 400) (codes "{\"error\":\"Invalid JSON\"}")
  concluded message (some r) = own_response J order prepare_payload (pos 200) message

  conclude-Replied :
      (message : Text) (o : Option Registry) (s : Session)
      → s.sent ≡ []
      → Replied (concluded message o) (conclude J order prepare_payload message o s)
  unfolding conclude concluded
  conclude-Replied message none s e = send_response-Replied _ _ s e
  conclude-Replied message (some r) s e =
      send_response-Replied (pos 200) message (record s { registry = r }) e

  concluded-response :
      (method : Text) (j : J.Value) (r : Registry)
      → (if method == codes "POST"
          then concluded
              (codes "{\"status\":\"success\",\"message\":\"Backend registered\"}")
              (registration J order prepare_payload j r)
          else concluded
              (codes "{\"status\":\"success\",\"message\":\"Backend unregistered\"}")
              (unregistration J order prepare_payload j r))
        ≡ registration_response J order prepare_payload method (some j)
  unfolding concluded registration unregistration
  concluded-response method j r = ground arith

  relabel : {a b : HttpMessage} {s : Session} → a ≡ b → Replied a s → Replied b s
  relabel e h = record { settled = h.settled; sent = h.sent ∙ ap (λ r. r ∷ []) e }

  register_directly-Replied :
      (method : Text) (j : Option J.Value) (s : Session)
      → s.sent ≡ []
      → Replied
          (registration_response J order prepare_payload method j)
          (register_directly J order prepare_payload method j s)
  unfolding register_directly concluded
  register_directly-Replied method none s e = conclude-Replied [] none s e
  register_directly-Replied method (some j) s e =
      relabel (concluded-response method j s.registry)
        (if-Replied _ _ _ (conclude-Replied _ _ s e) (conclude-Replied _ _ s e))

  found-Replied :
      (o : Option ForwardingRule) (s : Session) (a b c d : Completion) (cs : List Completion)
      → s.sent ≡ []
      → Replied
          (elim o [
            | none ↦
                own_response J order prepare_payload
                  (pos 404)
                  (codes "{\"error\":\"No backend found for this path\"}")
            | some rule ↦ relayed J order prepare_payload a b c d
          ])
          (live J order prepare_payload
            (forward_found J order prepare_payload o s)
            (a ∷ b ∷ c ∷ d ∷ cs))
  unfolding forward_found
  found-Replied none s a b c d cs e =
      live-Replied _ (a ∷ b ∷ c ∷ d ∷ cs) _ (send_response-Replied _ _ s e)
  found-Replied (some rule) s a b c d cs e =
      relay-Replied (record s { manager = set_state s.active_request forwarding s.manager }) a b c d
        cs e

  branches-Replied :
      (direct : Bool) (r q : HttpMessage) (x y : Session) (cs : List Completion)
      → Replied r x
      → Replied q (live J order prepare_payload y cs)
      → Replied
          (if direct then r else q)
          (live J order prepare_payload (if direct then x else y) cs)
  branches-Replied true r q x y cs h k = live-Replied r cs x h
  branches-Replied false r q x y cs h k = k

  dispatch-Replied :
      (q : HttpRequest) (s : Session) (a b c d : Completion) (cs : List Completion)
      → s.sent ≡ []
      → Replied (expected J order prepare_payload s.registry q a b c d) (
          live J order prepare_payload
            (dispatch J order prepare_payload (some q) s)
            (a ∷ b ∷ c ∷ d ∷ cs))
  unfolding dispatch forward_to_backend
  dispatch-Replied q s a b c d cs e =
      branches-Replied _ _ _ _ _ (a ∷ b ∷ c ∷ d ∷ cs)
        (register_directly-Replied q.method (J.parse q.body) s e)
        (found-Replied (find_backend order s.registry q.target) s a b c d cs e)

  handled-Replied :
      (q : HttpRequest) (s : Session) (a b c d : Completion) (cs : List Completion)
      → IsHeld s
      → s.sent ≡ []
      → Replied (expected J order prepare_payload s.registry q a b c d) (
          live J order prepare_payload
            (handle_request J order prepare_payload
              (record s { manager = set_request s.active_request q s.manager }))
            (a ∷ b ∷ c ∷ d ∷ cs))
  unfolding handle_request
  handled-Replied q s a b c d cs h e =
      rw (handle_request, request_of-set_request s.active_request s.request_id q s.manager h)
        (dispatch-Replied q (record s { manager = set_request s.active_request q s.manager }) a b c
          d cs e)

  -- A session that is created on a well-formed manager short of the wrap of its counter and started,
  -- and whose request is read without an error: once four further operations have completed, what
  -- it has written to its client, whatever else completes, is one response. For a registration that
  -- is the answer to whether its body can be read. For any other request it is 404 if no backend is
  -- found, 502 with the name of the first of resolving, connecting, writing and reading that failed,
  -- and otherwise the backend's own response as it was read.
  pub live_responds :
      (now : ℕ) (r : Registry) (m : Manager) (asked resolve connect write read : Completion)
      (rest : List Completion)
      → WellFormed m
      → m.next_request_id + 1 < 2 ^ 64
      → asked.ec ≡ false
      → (live J order prepare_payload
          (start (new_session now r m))
          (asked ∷ resolve ∷ connect ∷ write ∷ read ∷ rest)).sent
        ≡ expected J order prepare_payload r asked.request resolve connect write read ∷ []
  unfolding live start read_request new_session on_completion
  live_responds now r m asked a b c d rest w h e =
      rw (live, on_completion, e)
        ((handled-Replied asked.request (start (new_session now r m)) a b c d rest
          (started-IsTracked now r m w h) refl).sent)
