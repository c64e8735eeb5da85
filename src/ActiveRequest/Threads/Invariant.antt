-- ===== src/ActiveRequest/Threads/Invariant.antt =====
-- What holds however threads interleave (src/transport/active_request.cpp): no two hold the same id, and
-- no id that one holds is in the map.
use http2_server.Prelude.{
  ℕ, ◌+◌, ◌^◌, ◌<◌, ◌≡◌, refl, ap, ◌≢◌, subst, ℕ_discrete, none, some, Bool-cases, inl, inr, ◌==◌,
  [], ◌∷◌, arith, nat_eq, length,
}
use http2_server.Prelude.Map.{Map, lookup, insert}
use http2_server.ActiveRequest.{Pointer, Manager, store_request, get_request, get_active_count}
use http2_server.ActiveRequest.Tracking.{no_requests-WellFormed}
use http2_server.ActiveRequest.Threads.{
  Pc, made, Move, update, System, pick, Reach, begin, later, held,
}
use http2_server.ActiveRequest.Threads.Stable.{Knows, Mine, Inv, Mine-Stable, left_with-held}
use http2_server.ActiveRequest.Threads.Moves.{
  Move-Stable, Move-Mine, Move-counter, Move-WellFormed, Move-held, held_below,
}

module _ {n : ℕ} {m : Manager} {pc : ℕ → Pc} (inv : Inv n m pc) (i : ℕ) where
  open inv use {well, counter, mine, unique}

  -- Thread `i` after its step and the others.
  updated :
      (p' : Pc) (P : ℕ → Pc → Type 0)
      → P i p'
      → ((j : ℕ) → i ≢ j → P j (pc j))
      → (j : ℕ) → P j (update pc i p' j)
  updated p' P own others j =
      elim (ℕ_discrete i j) as (λ d. P j (elim d [ yes e ↦ p' | no e ↦ pc j ])) [
        | yes e ↦ subst (λ x. P x p') e own
        | no e ↦ others j e
      ]

  -- No thread holds an id that the mover holds after its step.
  alone :
      {k : ℕ} {p' : Pc} {m' : Manager} (j id : ℕ)
      → Move m k (pc i) m' p'
      → i ≢ j
      → held p' ≡ some id
      → held (pc j) ≡ some id
      → ⊥
  alone j id mv apart new other = elim (Move-held inv i mv new) [
    | inl old ↦ apart (unique i j id old other)
    | inr top ↦ omega (arith, held_below inv i j id other, top)
  ]

  Move-unique :
      {k : ℕ} {p' : Pc} {m' : Manager}
      → Move m k (pc i) m' p'
      → (a b id : ℕ) → held (update pc i p' a) ≡ some id
      → held (update pc i p' b) ≡ some id
      → a ≡ b
  Move-unique {p'} mv a b id =
      updated p' (λ a q. held q ≡ some id → held (update pc i p' b) ≡ some id → a ≡ b)
        (λ new.
          updated p' (λ b q. held q ≡ some id → i ≡ b) (λ h. refl)
            (λ j apart other. absurd (alone j id mv apart new other)) b)
        (λ j apart other.
          updated p' (λ b q. held q ≡ some id → j ≡ b)
            (λ new. absurd (alone j id mv apart new other)) (λ l apart' h. unique j l id other h) b)
        a

  Move-Inv :
      {k : ℕ} {p' : Pc} {m' : Manager}
      → n + k + 1 < 2 ^ 64
      → Move m k (pc i) m' p'
      → Inv (n + k) m' (update pc i p')
  Move-Inv {p'} {m'} small mv = record {
    well = Move-WellFormed inv i small mv (mine i);
    counter = Move-counter inv i small mv;
    mine =
        updated p' (λ j q. Mine m' q) (Move-Mine inv i small mv (mine i))
          (λ j apart.
            Mine-Stable (pc j) (Move-Stable inv i small mv (mine i))
              (λ id h same. apart (unique i j id (left_with-held (pc i) p' same) h)) (mine j));
    unique = Move-unique mv;
  }

Reach-Inv : {n : ℕ} {s : System} → n + 1 < 2 ^ 64 → Reach n s → Inv n s.manager s.pc
Reach-Inv small begin = record {
  well = no_requests-WellFormed;
  counter = refl;
  mine = λ i. tt;
  unique = λ i j id h g. cc;
}
Reach-Inv small (later {n} {k} r (pick i mv)) = Move-Inv (Reach-Inv (omega arith) r) i small mv

length-insert :
    (k : ℕ) (p : Pointer) (m : Map ℕ Pointer)
    → lookup k m ≡ none
    → length (insert k p m) ≡ length m + 1
unfolding lookup insert
length-insert k p [] h = refl
length-insert k p ((j, q) ∷ m) h = elim (Bool-cases (j == k)) [
  | inl e ↦ absurd (ground arith)
  | inr e ↦ rw e (omega (arith, length-insert k p m (rw e at h)))
]

-- Whatever any number of threads have done, short of the wrap of the counter: when one of them is about
-- to store the request that it has made, the id is not in the map, no other thread holds it, the
-- pointer leads to an object with that id, and storing it makes the number of active requests one
-- more.
pub store_request_safe :
    {n : ℕ} {s : System} (i id : ℕ) (p : Pointer)
    → n + 1 < 2 ^ 64
    → Reach n s
    → s.pc i ≡ made id p
    → (get_request id s.manager ≡ none)
      × ((j : ℕ) → held (s.pc j) ≡ some id → i ≡ j)
      × Knows id p s.manager
      × (get_active_count (store_request id p s.manager) ≡ get_active_count s.manager + 1)
unfolding get_request get_active_count
store_request_safe {n} {s} i id p small r e =
    let inv = Reach-Inv small r in
    let own : Mine s.manager (made id p) = subst (Mine s.manager) e (inv.mine i) in
    (
      own.1,
      λ j h. inv.unique i j id (ap held e) h,
      own.2,
      length-insert id p s.manager.active_requests own.1,
    )
