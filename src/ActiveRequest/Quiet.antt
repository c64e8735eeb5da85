-- ===== src/ActiveRequest/Quiet.antt =====
-- Writes to the objects of the manager of active requests (src/transport/active_request.cpp), which leave
-- the ids in use as they are.
use http2_server.Prelude.{◌≡◌, refl, ◌∙◌, nat_eq, Option-cases, inl, inr}
use http2_server.Prelude.Map.{lookup}
use http2_server.HttpClient.{HttpRequest, HttpMessage}
use http2_server.ActiveRequest.{
  ActiveRequest, Manager, Pointer, write, RequestState, set_state, set_request, set_response,
}
use http2_server.ActiveRequest.Tracking.{WellFormed, points_after_write}

-- Only objects are written: the ids in use stay.
pub record Quiet (m n : Manager) : Type 0 where
  pub well : WellFormed n
  pub entries : n.active_requests ≡ m.active_requests
  pub next : n.next_request_id ≡ m.next_request_id

pub no_move : {m : Manager} → WellFormed m → Quiet m m
no_move w = record { well = w; entries = refl; next = refl }

pub twice : {a b c : Manager} → Quiet a b → Quiet b c → Quiet a c
twice p q = record { well = q.well; entries = q.entries ∙ p.entries; next = q.next ∙ p.next }

write-Quiet :
    (p : Pointer) (f : ActiveRequest → ActiveRequest) (m : Manager)
    → ((r : ActiveRequest) → (f r).request_id ≡ r.request_id)
    → WellFormed m
    → Quiet m (write p f m)
write-Quiet p f m same w = elim (Option-cases (lookup p m.heap)) [
  | inl e ↦ rw (write, e) (no_move w)
  | inr (r, e) ↦
      rw (write, e)
        (record {
          well = record {
            distinct = w.distinct;
            points = points_after_write p f m same w e;
            below = w.below;
          };
          entries = refl;
          next = refl;
        })
]

pub set_state-Quiet :
    (p : Pointer) (state : RequestState) (m : Manager)
    → WellFormed m
    → Quiet m (set_state p state m)
unfolding set_state
set_state-Quiet p state m w = write-Quiet p _ m (λ r. refl) w

pub set_request-Quiet :
    (p : Pointer) (request : HttpRequest) (m : Manager)
    → WellFormed m
    → Quiet m (set_request p request m)
unfolding set_request
set_request-Quiet p request m w = write-Quiet p _ m (λ r. refl) w

pub set_response-Quiet :
    (p : Pointer) (response : HttpMessage) (m : Manager)
    → WellFormed m
    → Quiet m (set_response p response m)
unfolding set_response
set_response-Quiet p response m w = write-Quiet p _ m (λ r. refl) w
