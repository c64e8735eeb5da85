-- ===== src/ActiveRequest/Threads/Moves.antt =====
-- What each step of a thread does to the manager (src/transport/active_request.cpp) and to what the
-- thread knows.
use http2_server.Prelude.{
  ℕ, ◌+◌, ◌^◌, ◌<◌, ◌≡◌, refl, ap, ◌∙◌, ◌⊎◌, subst, none, some, Option-cases, inl, inr, arith,
  nat_eq,
}
use http2_server.Prelude.Map.{
  lookup, erase, insert-Distinct, lookup-insert_eq, lookup-insert_ne, lookup-insert_cases,
  lookup-erase_cases,
}
use http2_server.ActiveRequest.{
  completed, Manager, generate_request_id, new_request, complete_request, set_state, write,
  get_request,
}
use http2_server.ActiveRequest.Tracking.{
  WellFormed, fresh_id, complete_request-WellFormed, complete_request_eq,
}
use http2_server.ActiveRequest.Quiet.{set_state-Quiet}
use http2_server.ActiveRequest.Threads.{Pc, Move, draw, make, store, complete, advance, held}
use http2_server.ActiveRequest.Threads.Stable.{
  Knows, Mine, Inv, Stable, Mine-below, Knows-write, write-Stable, left_with,
}

module _ {n : ℕ} {m : Manager} {pc : ℕ → Pc} (inv : Inv n m pc) (i : ℕ) where
  open inv use {well, counter, mine, unique}

  complete-Stable : (id : ℕ) → Stable m (complete_request id m) none
  unfolding complete_request set_state get_request
  complete-Stable id = elim (Option-cases (lookup id m.active_requests)) [
    | inl e ↦
        rw (complete_request, e)
          (record { grows = omega arith; absent = λ j h o. h; keeps = λ j p k. k })
    | inr (p, e) ↦
        let (r, there, named, low) = well.points id p e in
        rw (complete_request_eq m id p r e there) (record {
          grows = omega arith;
          absent = λ j h o. elim (Option-cases (lookup j (erase id m.active_requests))) [
            | inl gone ↦ gone
            | inr (q, found) ↦
                let still = (lookup-erase_cases id j m.active_requests well.distinct found).1 in cc
          ];
          keeps = λ j q k.
              let kept : Knows j q (write p (λ s. record s { state = completed }) m) =
                Knows-write p (λ s. record s { state = completed }) m (λ s. refl) j q k in
              rw (write, there) at kept;
        })
  ]

  complete-well :
      (id : ℕ)
      → WellFormed (complete_request id m)
        × ((complete_request id m).next_request_id ≡ m.next_request_id)
  unfolding complete_request set_state get_request
  complete-well id = elim (Option-cases (lookup id m.active_requests)) [
    | inl e ↦ rw (complete_request, e) (well, refl)
    | inr (p, e) ↦
        let (r, there, named, low) = well.points id p e in
        (
          complete_request-WellFormed m id p r well e there,
          rw (complete_request_eq m id p r e there) refl,
        )
  ]

  pub Move-Stable :
      {k : ℕ} {p p' : Pc} {m' : Manager}
      → n + k + 1 < 2 ^ 64
      → Move m k p m' p'
      → Mine m p
      → Stable m m' (left_with p p')
  unfolding generate_request_id set_state
  Move-Stable small draw k = record {
    grows = omega (arith, counter);
    absent = λ id h o. h;
    keeps = λ id p t. t;
  }
  Move-Stable small (make now) k = record {
    grows = omega arith;
    absent = λ id h o. h;
    keeps = λ id p (r, e, named, low). (
      r,
      lookup-insert_ne _ m.heap (λ same. absurd (omega (arith, same))) ∙ e,
      named,
      omega arith,
    );
  }
  Move-Stable small (store {id}) k = record {
    grows = omega arith;
    absent = λ j h o. lookup-insert_ne _ m.active_requests (λ same. o (ap some same)) ∙ h;
    keeps = λ j p t. t;
  }
  Move-Stable small (complete id) k = complete-Stable id
  Move-Stable small (advance p state) k = write-Stable p _ m (λ r. refl)

  -- What the thread itself knows after its step.
  pub Move-Mine :
      {k : ℕ} {p p' : Pc} {m' : Manager}
      → n + k + 1 < 2 ^ 64
      → Move m k p m' p'
      → Mine m p
      → Mine m' p'
  unfolding generate_request_id
  Move-Mine small draw k = (omega (arith, counter), fresh_id m well)
  Move-Mine small (make {id} now) k =
      (k.0, k.1, (new_request id now, lookup-insert_eq _ m.heap refl, refl, omega arith))
  Move-Mine small store k = tt
  Move-Mine small (complete id) k = tt
  Move-Mine small (advance p state) k = tt

  pub Move-counter :
      {k : ℕ} {p p' : Pc} {m' : Manager}
      → n + k + 1 < 2 ^ 64
      → Move m k p m' p'
      → m'.next_request_id ≡ n + k + 1
  unfolding generate_request_id
  Move-counter small draw = omega (arith, counter)
  Move-counter small (make now) = omega (arith, counter)
  Move-counter small store = omega (arith, counter)
  Move-counter small (complete id) = (complete-well id).1 ∙ counter ∙ omega arith
  Move-counter small (advance p state) =
      (set_state-Quiet p state m well).next ∙ counter ∙ omega arith

  pub Move-WellFormed :
      {k : ℕ} {p p' : Pc} {m' : Manager}
      → n + k + 1 < 2 ^ 64
      → Move m k p m' p'
      → Mine m p
      → WellFormed m'
  unfolding generate_request_id
  Move-WellFormed small draw k = record {
    distinct = well.distinct;
    points = well.points;
    below = λ id p e. omega (arith, well.below id p e, counter);
  }
  Move-WellFormed small (make now) k = record {
    distinct = well.distinct;
    points = λ id p e. (Move-Stable small (make now) k).keeps id p (well.points id p e);
    below = well.below;
  }
  Move-WellFormed small (store {id} {p}) k = record {
    distinct = insert-Distinct id p m.active_requests well.distinct;
    points = λ j q e. elim (lookup-insert_cases id j p m.active_requests e) [
      | inl (same, it) ↦ subst (λ x. Knows x q m) same (subst (λ x. Knows id x m) it k.2)
      | inr (other, old) ↦ well.points j q old
    ];
    below = λ j q e. elim (lookup-insert_cases id j p m.active_requests e) [
      | inl (same, it) ↦ omega (arith, same, k.0)
      | inr (other, old) ↦ well.below j q old
    ];
  }
  Move-WellFormed small (complete id) k = (complete-well id).0
  Move-WellFormed small (advance p state) k = (set_state-Quiet p state m well).well

  pub Move-held :
      {k : ℕ} {p p' : Pc} {m' : Manager} {id : ℕ}
      → Move m k p m' p'
      → held p' ≡ some id
      → (held p ≡ some id) ⊎ (id ≡ m.next_request_id)
  unfolding generate_request_id
  Move-held draw h = inr cc
  Move-held (make now) h = inl h
  Move-held store h = cc
  Move-held (complete id) h = cc
  Move-held (advance p state) h = cc

  pub held_below : (j id : ℕ) → held (pc j) ≡ some id → id < m.next_request_id
  held_below j id h = Mine-below m (pc j) (mine j) h
