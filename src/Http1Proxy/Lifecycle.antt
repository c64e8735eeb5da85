-- ===== src/Http1Proxy/Lifecycle.antt =====
-- How a session of the proxy for HTTP/1.1 (src/transport/http1_proxy.cpp) ends.
use http2_server.Prelude.{
  ℕ, ◌+◌, ◌≡◌, refl, Option, none, some, List, [], ◌∷◌, Bool, true, false, if◌then◌else◌, nat_eq,
  eq_refl, ◌<◌, ◌^◌, arith,
}
use http2_server.Prelude.Text.{Text}
use http2_server.Prelude.Int.{ℤ}
use http2_server.Json.{JsonLib}
use http2_server.Registry.{Registry, Order, ForwardingRule, find_backend}
use http2_server.HttpClient.{HttpRequest, HttpMessage}
use http2_server.ActiveRequest.{Manager, completed, failed, set_state, set_request}
use http2_server.ActiveRequest.Tracking.{WellFormed, create_request_lem}
use http2_server.Http1Proxy.{
  Phase, unstarted, reading, resolving, connecting, writing, awaiting, replying, ended, Session,
  Completion, new_session, read_request, start, close, write_response, send_response, forward_found,
  forward_to_backend, conclude, register_directly, dispatch, handle_request, on_completion, live,
}
use http2_server.Http1Proxy.Held.{
  Held, Tracked, set_state-Held, set_response-Held, set_request-Held, request_of-set_request,
  complete_request-Dropped,
}

abbrev pub IsTracked : Session → Type 0
IsTracked s = Tracked s.phase s.active_request s.request_id s.manager

abbrev pub IsHeld : Session → Type 0
IsHeld s = Held s.active_request s.request_id s.manager

close-IsTracked : (s : Session) → IsHeld s → IsTracked (close s)
unfolding close
close-IsTracked s h = complete_request-Dropped s.active_request s.request_id s.manager h

write_response-IsTracked :
    (response : HttpMessage) (s : Session) → IsHeld s → IsTracked (write_response response s)
unfolding write_response
write_response-IsTracked response s h =
    set_state-Held s.active_request s.request_id _ _
      (set_response-Held s.active_request s.request_id response s.manager h)

pub started-IsTracked :
    (now : ℕ) (r : Registry) (m : Manager)
    → WellFormed m
    → m.next_request_id + 1 < 2 ^ 64
    → IsTracked (start (new_session now r m))
unfolding start read_request new_session
started-IsTracked now r m w h =
    let (unused, found, object, next) = create_request_lem now m m.next_request_id w h in
    set_state-Held _ _ _ _ (record {
      distinct = next.distinct;
      entry = ground (arith, found, eq_refl m.next_request_id);
      object = (_, object);
    })

if-IsTracked :
    (b : Bool) (x y : Session) → IsTracked x → IsTracked y → IsTracked (if b then x else y)
if-IsTracked true x y p q = p
if-IsTracked false x y p q = q

module _ (J : JsonLib) (order : Order) (prepare_payload : HttpMessage → HttpMessage) where
  send_response-IsTracked :
      (status : ℤ) (body : Text) (s : Session)
      → IsHeld s
      → IsTracked (send_response J order prepare_payload status body s)
  unfolding send_response
  send_response-IsTracked status body s h = write_response-IsTracked _ s h

  conclude-IsTracked :
      (message : Text) (o : Option Registry) (s : Session)
      → IsHeld s
      → IsTracked (conclude J order prepare_payload message o s)
  unfolding conclude
  conclude-IsTracked message none s h = send_response-IsTracked _ _ s h
  conclude-IsTracked message (some r) s h =
      send_response-IsTracked _ message (record s { registry = r }) h

  register_directly-IsTracked :
      (method : Text) (j : Option J.Value) (s : Session)
      → IsHeld s
      → IsTracked (register_directly J order prepare_payload method j s)
  unfolding register_directly
  register_directly-IsTracked method none s h = conclude-IsTracked [] none s h
  register_directly-IsTracked method (some j) s h =
      if-IsTracked _ _ _ (conclude-IsTracked _ _ s h) (conclude-IsTracked _ _ s h)

  forward_to_backend-IsTracked :
      (path : Text) (s : Session)
      → IsHeld s
      → IsTracked (forward_to_backend J order prepare_payload path s)
  unfolding forward_to_backend forward_found
  forward_to_backend-IsTracked path s h = found (find_backend order s.registry path)
    where
      found : (o : Option ForwardingRule) → IsTracked (forward_found J order prepare_payload o s)
      found none = send_response-IsTracked _ _ s h
      found (some rule) = set_state-Held s.active_request s.request_id _ s.manager h

  dispatch-IsTracked :
      (request : HttpRequest) (s : Session)
      → IsHeld s
      → IsTracked (dispatch J order prepare_payload (some request) s)
  unfolding dispatch
  dispatch-IsTracked request s h =
      if-IsTracked _ _ _ (register_directly-IsTracked _ _ s h)
        (forward_to_backend-IsTracked request.target s h)

  handle_request-IsTracked :
      (request : HttpRequest) (s : Session)
      → IsHeld s
      → IsTracked (
          handle_request J order prepare_payload
            (record s { manager = set_request s.active_request request s.manager }))
  unfolding handle_request
  handle_request-IsTracked request s h =
      rw (request_of-set_request s.active_request s.request_id request s.manager h) (
        dispatch-IsTracked request
          (record s { manager = set_request s.active_request request s.manager })
          (set_request-Held s.active_request s.request_id request s.manager h))

  -- Each case has the phase as a constructor.
  on_completion-IsTracked :
      (phase : Phase) (c : Completion) (s : Session)
      → s.phase ≡ phase
      → Tracked phase s.active_request s.request_id s.manager
      → IsTracked (on_completion J order prepare_payload phase c s)
  unfolding on_completion
  on_completion-IsTracked unstarted c s e h = rw e h
  on_completion-IsTracked reading c s e h =
      if-IsTracked c.ec _ _
        (close-IsTracked (record s { manager = set_state s.active_request failed s.manager })
          (set_state-Held s.active_request s.request_id failed s.manager h))
        (handle_request-IsTracked c.request s h)
  on_completion-IsTracked resolving c s e h =
      if-IsTracked c.ec _ _ (send_response-IsTracked _ _ s h) h
  on_completion-IsTracked connecting c s e h =
      if-IsTracked c.ec _ _ (send_response-IsTracked _ _ s h)
        (set_state-Held s.active_request s.request_id _ s.manager h)
  on_completion-IsTracked writing c s e h =
      if-IsTracked c.ec _ _ (send_response-IsTracked _ _ s h) h
  on_completion-IsTracked awaiting c s e h =
      if-IsTracked c.ec _ _ (send_response-IsTracked _ _ s h)
        (write_response-IsTracked c.response s h)
  on_completion-IsTracked replying c s e h =
      close-IsTracked
        (record s {
          manager = set_state s.active_request (if c.ec then failed else completed) s.manager;
        })
        (set_state-Held s.active_request s.request_id _ s.manager h)
  on_completion-IsTracked ended c s e h = rw e h

  all_IsTracked :
      (cs : List Completion) (s : Session)
      → IsTracked s
      → IsTracked (live J order prepare_payload s cs)
  unfolding live
  all_IsTracked [] s h = h
  all_IsTracked (c ∷ cs) s h =
      all_IsTracked cs (on_completion J order prepare_payload s.phase c s)
        (on_completion-IsTracked s.phase c s refl h)

  -- A session that is created on a well-formed manager short of the wrap of its counter and started,
  -- whatever completes and fails afterwards: until it ends the manager has its request under its id;
  -- once it has ended the manager has dropped the id, and the request is in the state `Completed`,
  -- also where it was marked `Failed` before.
  pub live-IsTracked :
      (now : ℕ) (r : Registry) (m : Manager) (cs : List Completion)
      → WellFormed m
      → m.next_request_id + 1 < 2 ^ 64
      → IsTracked (live J order prepare_payload (start (new_session now r m)) cs)
  live-IsTracked now r m cs w h = all_IsTracked cs _ (started-IsTracked now r m w h)
