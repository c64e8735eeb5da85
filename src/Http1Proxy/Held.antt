-- ===== src/Http1Proxy/Held.antt =====
-- What the manager of active requests (src/transport/active_request.cpp) keeps of a session's request.
use http2_server.Prelude.{ℕ, ◌≡◌, refl, none, some, nat_eq}
use http2_server.Prelude.Map.{lookup, Distinct, lookup-insert_eq, lookup-erase_eq}
use http2_server.HttpClient.{HttpRequest, HttpMessage}
use http2_server.ActiveRequest.{
  ActiveRequest, RequestState, Manager, Pointer, completed, write, set_state, set_request,
  set_response, get_request, complete_request,
}
use http2_server.ActiveRequest.Tracking.{complete_request_eq}
use http2_server.Http1Proxy.{Phase, ended, request_of}

-- The manager has the session's request under its id.
pub record Held (p : Pointer) (id : ℕ) (m : Manager) : Type 0 where
  pub distinct : Distinct m.active_requests
  pub entry : get_request id m ≡ some p
  pub object : (r : ActiveRequest) × (lookup p m.heap ≡ some r)

-- The manager no longer has the id, and the object is in the state `Completed`.
pub record Dropped (p : Pointer) (id : ℕ) (m : Manager) : Type 0 where
  pub entry : get_request id m ≡ none
  pub object : (r : ActiveRequest) × (lookup p m.heap ≡ some r) × (r.state ≡ completed)

abbrev pub Tracked : Phase → Pointer → ℕ → Manager → Type 0
Tracked ended p id m = Dropped p id m
Tracked _ p id m = Held p id m

write-Held :
    (p : Pointer) (id : ℕ) (f : ActiveRequest → ActiveRequest) (m : Manager)
    → Held p id m
    → Held p id (write p f m)
unfolding get_request
write-Held p id f m h =
    let (r, e) = h.object in
    rw (write, e)
      (record {
        distinct = h.distinct;
        entry = h.entry;
        object = (f r, lookup-insert_eq (f r) m.heap refl);
      })

pub set_state-Held :
    (p : Pointer) (id : ℕ) (state : RequestState) (m : Manager)
    → Held p id m
    → Held p id (set_state p state m)
unfolding set_state
set_state-Held p id state m h = write-Held p id (λ r. record r { state = state }) m h

pub set_response-Held :
    (p : Pointer) (id : ℕ) (response : HttpMessage) (m : Manager)
    → Held p id m
    → Held p id (set_response p response m)
unfolding set_response
set_response-Held p id response m h =
    write-Held p id (λ r. record r { response = some response }) m h

pub set_request-Held :
    (p : Pointer) (id : ℕ) (request : HttpRequest) (m : Manager)
    → Held p id m
    → Held p id (set_request p request m)
unfolding set_request
set_request-Held p id request m h = write-Held p id (λ r. record r { request = some request }) m h

-- The request that was set is the one that is read back.
pub request_of-set_request :
    (p : Pointer) (id : ℕ) (request : HttpRequest) (m : Manager)
    → Held p id m
    → request_of p (set_request p request m) ≡ some request
unfolding request_of set_request
request_of-set_request p id request m h =
    let (r, e) = h.object in
    rw
      (
        write,
        e,
        request_of,
        lookup-insert_eq {k = p} {j = p} (record r { request = some request }) m.heap refl,
      )
      refl

pub complete_request-Dropped :
    (p : Pointer) (id : ℕ) (m : Manager) → Held p id m → Dropped p id (complete_request id m)
unfolding get_request
complete_request-Dropped p id m h =
    let (r, e) = h.object in
    rw (complete_request_eq m id p r h.entry e) (record {
      entry = lookup-erase_eq m.active_requests h.distinct refl;
      object = (
        record r { state = completed },
        lookup-insert_eq (record r { state = completed }) m.heap refl,
        refl,
      );
    })
