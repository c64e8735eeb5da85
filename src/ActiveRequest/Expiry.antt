-- ===== src/ActiveRequest/Expiry.antt =====
-- Which requests `cleanup_expired_requests` (src/transport/active_request.cpp) removes.
use http2_server.Prelude.{
  ℕ, ◌≡◌, refl, ◌∙◌, Option, none, some, [], ◌∷◌, Bool, true, false, if◌then◌else◌, arith, nat_eq,
  eq_iff, ◌==◌, Bool-cases, Option-cases, inl, inr,
}
use http2_server.Prelude.Map.{
  Map, lookup, erase, Distinct, erase-Distinct, lookup-insert, lookup-erase, lookup_of_Fresh,
  lookup-insert_eq, lookup-insert_ne,
}
use http2_server.ActiveRequest.{
  ActiveRequest, Pointer, Manager, failed, write, set_state, get_request, is_expired, expired_at,
  sweep, cleanup_expired_requests,
}
use http2_server.ActiveRequest.Tracking.{WellFormed}

-- The entry that an id finds is expired.
abbrev pub due : ℕ → Option Pointer → Manager → Bool
due now none m = false
due now (some p) m = elim (lookup p m.heap) [ none ↦ false | some r ↦ is_expired now r ]

-- Marking a request does not change whether any request is expired.
due-set_state :
    (now : ℕ) (q : Pointer) (found : Option Pointer) (m : Manager)
    → due now found (set_state q failed m) ≡ due now found m
unfolding set_state
due-set_state now q none m = refl
due-set_state now q (some p) m = elim (Option-cases (lookup q m.heap)) [
  | inl e ↦ rw (write, e) refl
  | inr (r, e) ↦
      rw (write, e)
        (ground (arith, lookup-insert q p (record r { state = failed }) m.heap, eq_iff q p))
]

active-set_state :
    (q : Pointer) (m : Manager) → (set_state q failed m).active_requests ≡ m.active_requests
unfolding set_state
active-set_state q m = elim (Option-cases (lookup q m.heap)) [
  | inl e ↦ rw (write, e) refl
  | inr (r, e) ↦ rw (write, e) refl
]

-- The manager once an expired entry has been dealt with.
abbrev removed : ℕ → Pointer → Manager → Manager
removed j q m = record (set_state q failed m) { active_requests = erase j m.active_requests }

sweep-step :
    (now j : ℕ) (q : Pointer) (rest : Map ℕ Pointer) (m : Manager)
    → sweep now ((j, q) ∷ rest) m
      ≡ (if due now (some q) m then sweep now rest (removed j q m) else sweep now rest m)
unfolding sweep expired_at
sweep-step now j q rest m = elim (Bool-cases (due now (some q) m)) [
  | inl old ↦ rw old refl
  | inr young ↦ rw young refl
]

-- The loop on the entries that are left.
sweep_finds :
    (now : ℕ) (entries : Map ℕ Pointer) (m : Manager) (id : ℕ)
    → Distinct entries
    → Distinct m.active_requests
    → lookup id (sweep now entries m).active_requests
      ≡ (if due now (lookup id entries) m then none else lookup id m.active_requests)
unfolding lookup
sweep_finds now [] m id d a = unfold sweep in refl
sweep_finds now ((j, q) ∷ rest) m id d a = rw (sweep-step now j q rest m) (
    ground (
      arith,
      sweep_finds now rest (removed j q m) id d.1 (erase-Distinct j m.active_requests a),
      sweep_finds now rest m id d.1 a,
      due-set_state now q (lookup id rest) m,
      lookup-erase j id m.active_requests a,
      eq_iff j id,
      lookup_of_Fresh j rest d.0,
    ))

-- The object is in the state `Failed`.
abbrev pub IsFailed : Pointer → Manager → Type 0
IsFailed p m = (r : ActiveRequest) × (lookup p m.heap ≡ some r) × (r.state ≡ failed)

set_state-IsFailed :
    (p q : Pointer) (m : Manager) → IsFailed p m → IsFailed p (set_state q failed m)
unfolding set_state
set_state-IsFailed p q m (r, e, f) = elim (Option-cases (lookup q m.heap)) [
  | inl n ↦ rw (write, n) (r, e, f)
  | inr (old, n) ↦
      rw (write, n)
        (elim (Bool-cases (q == p)) [
          | inl b ↦ (
            record old { state = failed },
            lookup-insert_eq (record old { state = failed }) m.heap ((eq_iff q p).0 b),
            refl,
          )
          | inr b ↦ (
            r,
            lookup-insert_ne (record old { state = failed }) m.heap
                  (λ t. ground (arith, eq_iff q p))
                ∙ e,
            f,
          )
        ])
]

set_state-own :
    (now : ℕ) (p : Pointer) (m : Manager)
    → due now (some p) m ≡ true
    → IsFailed p (set_state p failed m)
unfolding set_state
set_state-own now p m old = elim (Option-cases (lookup p m.heap)) [
  | inl n ↦ absurd (ground arith)
  | inr (r, n) ↦
      rw (write, n)
        (
          record r { state = failed },
          lookup-insert_eq (record r { state = failed }) m.heap refl,
          refl,
        )
]

sweep-IsFailed :
    (now : ℕ) (p : Pointer) (entries : Map ℕ Pointer) (m : Manager)
    → IsFailed p m
    → IsFailed p (sweep now entries m)
sweep-IsFailed now p [] m f = unfold sweep in f
sweep-IsFailed now p ((j, q) ∷ rest) m f =
    rw (sweep-step now j q rest m) (elim (Bool-cases (due now (some q) m)) [
      | inl old ↦ rw old (sweep-IsFailed now p rest (removed j q m) (set_state-IsFailed p q m f))
      | inr young ↦ rw young (sweep-IsFailed now p rest m f)
    ])

sweep_marks :
    (now : ℕ) (id : ℕ) (p : Pointer) (entries : Map ℕ Pointer) (m : Manager)
    → lookup id entries ≡ some p
    → due now (some p) m ≡ true
    → IsFailed p (sweep now entries m)
sweep_marks now id p [] m h old = unfold lookup in cc
sweep_marks now id p ((j, q) ∷ rest) m h old =
    rw (sweep-step now j q rest m) (elim (Bool-cases (j == id)) [
      | inl b ↦
          let same : q ≡ p = unfold lookup in ground arith in
          rw (same, old) (sweep-IsFailed now p rest (removed j p m) (set_state-own now p m old))
      | inr b ↦
          let later : lookup id rest ≡ some p = unfold lookup in ground arith in
          elim (Bool-cases (due now (some q) m)) [
            | inl also ↦ rw also (
                sweep_marks now id p rest (removed j q m) later
                  (due-set_state now q (some p) m ∙ old))
            | inr young ↦ rw young (sweep_marks now id p rest m later old)
          ]
    ])

-- In a well-formed manager, a sweep removes exactly the ids whose request was started more than 30
-- seconds ago; every other id finds what it found before.
cleanup_expired_requests_lem :
    (now : ℕ) (m : Manager) (id : ℕ)
    → WellFormed m
    → get_request id (cleanup_expired_requests now m)
      ≡ (if due now (get_request id m) m then none else get_request id m)
unfolding get_request cleanup_expired_requests
cleanup_expired_requests_lem now m id w =
    sweep_finds now m.active_requests m id w.distinct w.distinct

-- In every manager, a sweep marks `Failed` the request of each id whose request was started more than
-- 30 seconds ago.
cleanup_expired_requests_marks :
    (now : ℕ) (m : Manager) (id : ℕ) (p : Pointer)
    → get_request id m ≡ some p
    → due now (some p) m ≡ true
    → IsFailed p (cleanup_expired_requests now m)
unfolding get_request cleanup_expired_requests
cleanup_expired_requests_marks now m id p h old = sweep_marks now id p m.active_requests m h old
