-- ===== src/ActiveRequest/Tracking.antt =====
-- What the manager (src/transport/active_request.cpp) keeps of the requests that are under way.
use mathlib.Core.Option.{some-injective}
use http2_server.Prelude.{
  Bool-cases, ℕ, ◌+◌, ◌^◌, ◌<◌, ◌≡◌, refl, sym, ap, ◌∙◌, none, some, arith, nat_eq, eq_iff, ◌==◌,
  if◌then◌else◌, Option-cases, inl, inr,
}
use http2_server.Prelude.Map.{
  lookup, insert, erase, Distinct, insert-Distinct, erase-Distinct, lookup-insert_eq, lookup-insert,
  lookup-erase, lookup-insert_ne, lookup-insert_cases, lookup-erase_cases,
}
use http2_server.ActiveRequest.{
  completed, ActiveRequest, Pointer, Manager, new_request, set_state, create_request, get_request,
  complete_request, no_requests, write,
}

-- One entry for each id; every entry points to the object that has its id; the numbers in use are
-- below the counters.
pub record WellFormed (m : Manager) : Type 0 where
  pub distinct : Distinct m.active_requests
  pub points :
      (id : ℕ) (p : Pointer)
      → lookup id m.active_requests ≡ some p
      → (r : ActiveRequest) × (lookup p m.heap ≡ some r)
        × (r.request_id ≡ id)
        × (p < m.next_pointer)
  pub below : (id : ℕ) (p : Pointer) → lookup id m.active_requests ≡ some p → id < m.next_request_id

pub no_requests-WellFormed : WellFormed no_requests
unfolding lookup
no_requests-WellFormed = record { distinct = tt; points = λ id p h. cc; below = λ id p h. cc }

pub fresh_id : (m : Manager) → WellFormed m → lookup m.next_request_id m.active_requests ≡ none
fresh_id m w = elim (Option-cases (lookup m.next_request_id m.active_requests)) [
  | inl e ↦ e
  | inr (p, e) ↦ absurd (omega (arith, w.below m.next_request_id p e))
]

create_request-points :
    (now : ℕ) (m : Manager) (id : ℕ) (p : Pointer)
    → WellFormed m
    → lookup id (create_request now m).1.active_requests ≡ some p
    → (r : ActiveRequest) × (lookup p (create_request now m).1.heap ≡ some r)
      × (r.request_id ≡ id)
      × (p < m.next_pointer + 1)
unfolding create_request
create_request-points now m id p w e =
    let new = new_request m.next_request_id now in
    elim (lookup-insert_cases m.next_request_id id m.next_pointer m.active_requests e) [
      | inl (same, q) ↦ (new, lookup-insert_eq new m.heap q, same, omega arith)
      | inr (other, old) ↦
          let (r, found, named, low) = w.points id p old in
          (r, lookup-insert_ne new m.heap (λ t. absurd (omega arith)) ∙ found, named, omega arith)
    ]

create_request-below :
    (now : ℕ) (m : Manager) (id : ℕ) (p : Pointer)
    → WellFormed m
    → m.next_request_id + 1 < 2 ^ 64
    → lookup id (create_request now m).1.active_requests ≡ some p
    → id < (create_request now m).1.next_request_id
unfolding create_request
create_request-below now m id p w h e =
    elim (lookup-insert_cases m.next_request_id id m.next_pointer m.active_requests e) [
      | inl (same, q) ↦ omega arith
      | inr (other, old) ↦ omega (arith, w.below id p old)
    ]

create_request-WellFormed :
    (now : ℕ) (m : Manager)
    → WellFormed m
    → m.next_request_id + 1 < 2 ^ 64
    → WellFormed (create_request now m).1
unfolding create_request
create_request-WellFormed now m w h = record {
  distinct = insert-Distinct m.next_request_id m.next_pointer m.active_requests w.distinct;
  points = λ id p e. create_request-points now m id p w e;
  below = λ id p e. create_request-below now m id p w h e;
}

-- In a well-formed manager short of the wrap of the counter, a new request gets an id that was not in
-- use; after it that id finds the new request, every other id finds what it found before, the object
-- is in the state `Created`, and the manager is well formed.
pub create_request_lem :
    (now : ℕ) (m : Manager) (id : ℕ)
    → WellFormed m
    → m.next_request_id + 1 < 2 ^ 64
    → let (p, n) = create_request now m in
      (get_request m.next_request_id m ≡ none)
      × (get_request id n ≡ (if m.next_request_id == id then some p else get_request id m))
      × (lookup p n.heap ≡ some (new_request m.next_request_id now))
      × WellFormed n
unfolding create_request get_request
create_request_lem now m id w h = (
  fresh_id m w,
  lookup-insert m.next_request_id id m.next_pointer m.active_requests,
  lookup-insert_eq (new_request m.next_request_id now) m.heap refl,
  create_request-WellFormed now m w h,
)

-- A write through a pointer that keeps the id keeps what every entry points to.
pub points_after_write :
    (p : Pointer) (f : ActiveRequest → ActiveRequest) (m : Manager) {r : ActiveRequest}
    → ((s : ActiveRequest) → (f s).request_id ≡ s.request_id)
    → WellFormed m
    → lookup p m.heap ≡ some r
    → (id : ℕ) (q : Pointer) → lookup id m.active_requests ≡ some q
    → (s : ActiveRequest) × (lookup q (insert p (f r) m.heap) ≡ some s)
      × (s.request_id ≡ id)
      × (q < m.next_pointer)
points_after_write p f m {r} keep w e id q h =
    let (s, found, named, low) = w.points id q h in
    elim (Bool-cases (p == q)) [
      | inl b ↦
          let same = (eq_iff p q).0 b in
          (
            f r,
            lookup-insert_eq (f r) m.heap same,
            keep r
                ∙ ap (λ (a : ActiveRequest). a.request_id)
                    (some-injective _ _ (sym e ∙ ap (λ a. lookup a m.heap) same ∙ found))
                ∙ named,
            low,
          )
      | inr b ↦
          (s, lookup-insert_ne (f r) m.heap (λ t. ground (arith, eq_iff p q)) ∙ found, named, low)
    ]

pub complete_request_eq :
    (m : Manager) (id : ℕ) (p : Pointer) (r : ActiveRequest)
    → get_request id m ≡ some p
    → lookup p m.heap ≡ some r
    → complete_request id m ≡ record m {
      heap = insert p (record r { state = completed }) m.heap;
      active_requests = erase id m.active_requests;
    }
unfolding get_request complete_request set_state
complete_request_eq m id p r h e = rw (complete_request, h, set_state, write, e) refl

pub complete_request-WellFormed :
    (m : Manager) (id : ℕ) (p : Pointer) (r : ActiveRequest)
    → WellFormed m
    → get_request id m ≡ some p
    → lookup p m.heap ≡ some r
    → WellFormed (complete_request id m)
unfolding get_request
complete_request-WellFormed m id p r w h e = rw (complete_request_eq m id p r h e) (record {
  distinct = erase-Distinct id m.active_requests w.distinct;
  points = λ j q g.
      points_after_write p (λ s. record s { state = completed }) m (λ s. refl) w e j q
        (lookup-erase_cases id j m.active_requests w.distinct g).1;
  below = λ j q g. w.below j q (lookup-erase_cases id j m.active_requests w.distinct g).1;
})

-- In a well-formed manager, completing a request that it has marks the object `Completed`; after it
-- that id finds nothing, every other id finds what it found before, and the manager is well formed.
complete_request_lem :
    (m : Manager) (id j : ℕ) (p : Pointer) (r : ActiveRequest)
    → WellFormed m
    → get_request id m ≡ some p
    → lookup p m.heap ≡ some r
    → (lookup p (complete_request id m).heap ≡ some (record r { state = completed }))
      × (get_request j (complete_request id m) ≡ (if id == j then none else get_request j m))
      × WellFormed (complete_request id m)
unfolding get_request
complete_request_lem m id j p r w h e = (
  rw (complete_request_eq m id p r h e)
      (lookup-insert_eq (record r { state = completed }) m.heap refl),
  rw (complete_request_eq m id p r h e) (lookup-erase id j m.active_requests w.distinct),
  complete_request-WellFormed m id p r w h e,
)
