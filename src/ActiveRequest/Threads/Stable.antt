-- ===== src/ActiveRequest/Threads/Stable.antt =====
-- What a step of one thread leaves of what the others know (src/transport/active_request.cpp).
use mathlib.Core.Option
use http2_server.Prelude.{
  ℕ, ◌+◌, ◌≤◌, ◌<◌, ◌≡◌, refl, sym, ap, ◌∙◌, ◌≢◌, subst, ℕ_discrete, Option, none, some,
  Option-cases, inl, inr, arith, nat_eq,
}
use http2_server.Prelude.Map.{lookup, lookup-insert_eq, lookup-insert_ne}
use http2_server.ActiveRequest.{ActiveRequest, Pointer, Manager, write}
use http2_server.ActiveRequest.Tracking.{WellFormed}
use http2_server.ActiveRequest.Threads.{Pc, outside, numbered, made, held}

-- The pointer leads to the object of this id.
abbrev pub Knows : ℕ → Pointer → Manager → Type 0
Knows id p m =
    (r : ActiveRequest) × (lookup p m.heap ≡ some r) × (r.request_id ≡ id) × (p < m.next_pointer)

-- What a thread's local variables say of the manager.
abbrev pub Mine : Manager → Pc → Type 0
Mine m outside = Unit
Mine m (numbered id) = (id < m.next_request_id) × (lookup id m.active_requests ≡ none)
Mine m (made id p) = (id < m.next_request_id) × (lookup id m.active_requests ≡ none) × Knows id p m

pub record Inv (n : ℕ) (m : Manager) (pc : ℕ → Pc) : Type 0 where
  pub well : WellFormed m
  pub counter : m.next_request_id ≡ n + 1
  pub mine : (i : ℕ) → Mine m (pc i)
  pub unique : (i j id : ℕ) → held (pc i) ≡ some id → held (pc j) ≡ some id → i ≡ j

-- What a step leaves of what the other threads know: at most this id comes into the map.
pub record Stable (m m' : Manager) (added : Option ℕ) : Type 0 where
  pub grows : m.next_request_id ≤ m'.next_request_id
  pub absent :
      (id : ℕ)
      → lookup id m.active_requests ≡ none
      → added ≢ some id
      → lookup id m'.active_requests ≡ none
  pub keeps : (id : ℕ) (p : Pointer) → Knows id p m → Knows id p m'

pub Mine-Stable :
    {m m' : Manager} {added : Option ℕ} (p : Pc)
    → Stable m m' added
    → ((id : ℕ) → held p ≡ some id → added ≢ some id)
    → Mine m p
    → Mine m' p
Mine-Stable outside s h k = tt
Mine-Stable (numbered id) s h k = (omega (arith, k.0, s.grows), s.absent id k.1 (h id refl))
Mine-Stable (made id p) s h k =
    (omega (arith, k.0, s.grows), s.absent id k.1 (h id refl), s.keeps id p k.2)

pub Mine-below :
    (m : Manager) {id : ℕ} (p : Pc) → Mine m p → held p ≡ some id → id < m.next_request_id
Mine-below m outside k h = cc
Mine-below m {id} (numbered j) k h = let e : j ≡ id = cc in subst (λ x. x < m.next_request_id) e k.0
Mine-below m {id} (made j p) k h = let e : j ≡ id = cc in subst (λ x. x < m.next_request_id) e k.0

pub Knows-write :
    (q : Pointer) (f : ActiveRequest → ActiveRequest) (m : Manager)
    → ((r : ActiveRequest) → (f r).request_id ≡ r.request_id)
    → (id : ℕ) (p : Pointer) → Knows id p m
    → Knows id p (write q f m)
Knows-write q f m keep id p (r, e, named, low) = elim (Option-cases (lookup q m.heap)) [
  | inl none_there ↦ rw (write, none_there) (r, e, named, low)
  | inr (old, there) ↦ elim (ℕ_discrete q p) [
    | yes same ↦
        let it : old ≡ r =
          Option.some-injective old r (sym there ∙ ap (λ x. lookup x m.heap) same ∙ e) in
        rw (write, there)
          (
            f old,
            lookup-insert_eq (f old) m.heap same,
            keep old ∙ ap (λ (a : ActiveRequest). a.request_id) it ∙ named,
            low,
          )
    | no other ↦ rw (write, there) (r, lookup-insert_ne (f old) m.heap other ∙ e, named, low)
  ]
]

pub write-Stable :
    (q : Pointer) (f : ActiveRequest → ActiveRequest) (m : Manager)
    → ((r : ActiveRequest) → (f r).request_id ≡ r.request_id)
    → Stable m (write q f m) none
write-Stable q f m keep = record {
  grows = elim (Option-cases (lookup q m.heap)) [
    | inl e ↦ rw (write, e) (omega arith)
    | inr (old, e) ↦ rw (write, e) (omega arith)
  ];
  absent = λ id h o. elim (Option-cases (lookup q m.heap)) [
    | inl e ↦ rw (write, e) h
    | inr (old, e) ↦ rw (write, e) h
  ];
  keeps = Knows-write q f m keep;
}

-- The id that a step puts into the map.
abbrev pub left_with : Pc → Pc → Option ℕ
left_with p outside = held p
left_with p _ = none

pub left_with-held : (p p' : Pc) {id : ℕ} → left_with p p' ≡ some id → held p ≡ some id
left_with-held p outside h = h
left_with-held p (numbered j) h = cc
left_with-held p (made j q) h = cc
