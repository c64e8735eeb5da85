-- ===== src/Http1Proxy/Site/Moves.antt =====
-- What one completion of a session (src/transport/http1_proxy.cpp) changes of the shared manager.
use http2_server.Prelude.{
  ℕ, ◌≡◌, refl, ap, ◌∙◌, Option, none, some, [], Bool, true, false, if◌then◌else◌, nat_eq,
}
use http2_server.Prelude.Text.{Text}
use http2_server.Prelude.Int.{ℤ, pos}
use http2_server.Prelude.Map.{lookup, erase}
use http2_server.Json.{JsonLib}
use http2_server.Registry.{Registry, Order, ForwardingRule}
use http2_server.HttpClient.{HttpRequest, HttpMessage}
use http2_server.ActiveRequest.{
  Manager, Pointer, set_state, set_request, completed, failed, get_request,
}
use http2_server.ActiveRequest.Tracking.{
  WellFormed, complete_request_eq, complete_request-WellFormed,
}
use http2_server.Http1Proxy.{
  Phase, unstarted, reading, resolving, connecting, writing, awaiting, replying, ended, Session,
  Completion, close, write_response, send_response, forward_found, forward_to_backend, conclude,
  register_directly, dispatch, handle_request, on_completion,
}
use http2_server.Http1Proxy.Held.{request_of-set_request}
use http2_server.Http1Proxy.Site.{is_ended}
use http2_server.ActiveRequest.Quiet.{
  Quiet, no_move, twice, set_state-Quiet, set_request-Quiet, set_response-Quiet,
}

-- The session keeps its request, and the manager has the id exactly for as long as it goes on.
pub record Moves (id : ℕ) (p : Pointer) (m : Manager) (t : Session) : Type 0 where
  pub named : t.request_id ≡ id
  pub pointer : t.active_request ≡ p
  pub well : WellFormed t.manager
  pub next : t.manager.next_request_id ≡ m.next_request_id
  pub entries :
      t.manager.active_requests
      ≡ (if is_ended t.phase then erase id m.active_requests else m.active_requests)

abbrev pub MovesFrom : Session → Session → Type 0
MovesFrom s t = Moves s.request_id s.active_request s.manager t

-- Changes of objects may come first.
after :
    {id : ℕ} {p : Pointer} {m n : Manager} {t : Session}
    → Quiet m n
    → Moves id p n t
    → Moves id p m t
after {id} {t = t} q v = record {
  named = v.named;
  pointer = v.pointer;
  well = v.well;
  next = v.next ∙ q.next;
  entries = v.entries ∙ ap (λ x. if is_ended t.phase then erase id x else x) q.entries;
}

write_response-Moves :
    (response : HttpMessage) (s : Session)
    → WellFormed s.manager
    → MovesFrom s (write_response response s)
unfolding write_response
write_response-Moves response s w =
    let first = set_response-Quiet s.active_request response s.manager w in
    let second = twice first (set_state-Quiet s.active_request _ _ first.well) in
    record {
      named = refl;
      pointer = refl;
      well = second.well;
      next = second.next;
      entries = second.entries;
    }

if-Moves :
    {id : ℕ} {p : Pointer} {m : Manager} (b : Bool) (x y : Session)
    → Moves id p m x
    → Moves id p m y
    → Moves id p m (if b then x else y)
if-Moves true x y p q = p
if-Moves false x y p q = q

-- The session goes on with its manager's entries as they are.
goes_on :
    (s : Session) (m : Manager) (phase : Phase)
    → is_ended phase ≡ false
    → Quiet s.manager m
    → MovesFrom s (record s { manager = m; phase = phase })
goes_on s m phase o q = record {
  named = refl;
  pointer = refl;
  well = q.well;
  next = q.next;
  entries = rw o q.entries;
}

close-Moves :
    (s : Session)
    → WellFormed s.manager
    → get_request s.request_id s.manager ≡ some s.active_request
    → MovesFrom s (close s)
unfolding close get_request
close-Moves s w h =
    let (r, e, named, low) = w.points s.request_id s.active_request h in
    record {
      named = refl;
      pointer = refl;
      well = complete_request-WellFormed s.manager s.request_id s.active_request r w h e;
      next = rw (complete_request_eq s.manager s.request_id s.active_request r h e) refl;
      entries = rw (complete_request_eq s.manager s.request_id s.active_request r h e) refl;
    }

module _ (J : JsonLib) (order : Order) (prepare_payload : HttpMessage → HttpMessage) where
  send_response-Moves :
      (status : ℤ) (body : Text) (s : Session)
      → WellFormed s.manager
      → MovesFrom s (send_response J order prepare_payload status body s)
  unfolding send_response
  send_response-Moves status body s w = write_response-Moves _ s w

  conclude-Moves :
      (message : Text) (o : Option Registry) (s : Session)
      → WellFormed s.manager
      → MovesFrom s (conclude J order prepare_payload message o s)
  unfolding conclude
  conclude-Moves message none s w = send_response-Moves _ _ s w
  conclude-Moves message (some r) s w = send_response-Moves _ message (record s { registry = r }) w

  register_directly-Moves :
      (method : Text) (j : Option J.Value) (s : Session)
      → WellFormed s.manager
      → MovesFrom s (register_directly J order prepare_payload method j s)
  unfolding register_directly
  register_directly-Moves method none s w = conclude-Moves [] none s w
  register_directly-Moves method (some j) s w =
      if-Moves _ _ _ (conclude-Moves _ _ s w) (conclude-Moves _ _ s w)

  forward_found-Moves :
      (o : Option ForwardingRule) (s : Session)
      → WellFormed s.manager
      → MovesFrom s (forward_found J order prepare_payload o s)
  unfolding forward_found
  forward_found-Moves none s w = send_response-Moves _ _ s w
  forward_found-Moves (some rule) s w =
      goes_on s _ resolving refl (set_state-Quiet s.active_request _ s.manager w)

  dispatch-Moves :
      (request : HttpRequest) (s : Session)
      → WellFormed s.manager
      → MovesFrom s (dispatch J order prepare_payload (some request) s)
  unfolding dispatch forward_to_backend
  dispatch-Moves request s w =
      if-Moves _ _ _ (register_directly-Moves _ _ s w) (forward_found-Moves _ s w)

  handle_request-Moves :
      (request : HttpRequest) (s : Session)
      → WellFormed s.manager
      → get_request s.request_id s.manager ≡ some s.active_request
      → MovesFrom s (
          handle_request J order prepare_payload
            (record s { manager = set_request s.active_request request s.manager }))
  unfolding handle_request get_request
  handle_request-Moves request s w h =
      let quiet = set_request-Quiet s.active_request request s.manager w in
      let (r, e, named, low) = w.points s.request_id s.active_request h in
      rw
        (request_of-set_request s.active_request s.request_id request s.manager
          (record { distinct = w.distinct; entry = h; object = (r, e) }))
        (after quiet (
          dispatch-Moves request
            (record s { manager = set_request s.active_request request s.manager }) quiet.well))

  fails-Moves :
      (b : Bool) (body : Text) (s : Session) (m : Manager) (phase : Phase)
      → is_ended phase ≡ false
      → WellFormed s.manager
      → Quiet s.manager m
      → MovesFrom s (
          if b
          then send_response J order prepare_payload (pos 502) body s
          else record s { manager = m; phase = phase })
  fails-Moves b body s m phase o w q =
      if-Moves b _ _ (send_response-Moves _ body s w) (goes_on s m phase o q)

  pub on_completion-Moves :
      (phase : Phase) (c : Completion) (s : Session)
      → s.phase ≡ phase
      → is_ended phase ≡ false
      → WellFormed s.manager
      → get_request s.request_id s.manager ≡ some s.active_request
      → MovesFrom s (on_completion J order prepare_payload phase c s)
  unfolding on_completion get_request
  on_completion-Moves unstarted c s e o w h = rw e (goes_on s s.manager unstarted refl (no_move w))
  on_completion-Moves reading c s e o w h =
      let quiet = set_state-Quiet s.active_request failed s.manager w in
      if-Moves c.ec _ _
        (after quiet (
          close-Moves (record s { manager = set_state s.active_request failed s.manager })
            quiet.well (ap (lookup s.request_id) quiet.entries ∙ h)))
        (handle_request-Moves c.request s w h)
  on_completion-Moves resolving c s e o w h =
      fails-Moves c.ec _ s s.manager connecting refl w (no_move w)
  on_completion-Moves connecting c s e o w h =
      fails-Moves c.ec _ s _ writing refl w (set_state-Quiet s.active_request _ s.manager w)
  on_completion-Moves writing c s e o w h =
      fails-Moves c.ec _ s s.manager awaiting refl w (no_move w)
  on_completion-Moves awaiting c s e o w h =
      if-Moves c.ec _ _ (send_response-Moves _ _ s w) (write_response-Moves c.response s w)
  on_completion-Moves replying c s e o w h =
      let quiet =
        set_state-Quiet s.active_request (if c.ec then failed else completed) s.manager w in
      after quiet (
        close-Moves
          (record s {
            manager = set_state s.active_request (if c.ec then failed else completed) s.manager;
          })
          quiet.well (ap (lookup s.request_id) quiet.entries ∙ h))
  on_completion-Moves ended c s e o w h = cc
