-- ===== src/Startup/Shutdown.antt =====
-- How the server ends (src/main.cpp): by a signal, or by an exception in one of its threads.
use mathlib.Core.Option
use http2_server.Prelude.{
  sym, subst, ℕ, zero, suc, ◌-◌, ◌≤◌, ◌<◌, ◌≡◌, refl, ◌↔◌, ◌⊎◌, inl, inr, Option, none, some, Bool,
  true, false, ℕ_discrete, ◌||◌, ◌&&◌, if◌then◌else◌, Bool-cases, nat_beq, arith,
}
use http2_server.Startup.{Settings, Environment, Serving, start}

-- `g_io_context`: null before `main` has made it, then whether it has been stopped.
abbrev pub IoContext : Type 0
IoContext = Option Bool

unfoldable pub signal_handler : IoContext → IoContext
signal_handler none = none
signal_handler (some stopped) = some true

-- How one `io_context.run()` ends.
pub data RunEnd : Type 0 where
  returned threw : RunEnd

abbrev pub is_threw : RunEnd → Bool
is_threw returned = false
is_threw threw = true

pub data Exit : Type 0 where
  exited : ℕ → Exit
  terminated : Exit

-- Whether an exception leaves one of the first threads of the pool.
unfoldable pub any_threw : (ℕ → RunEnd) → ℕ → Bool
any_threw ends zero = false
any_threw ends (suc n) = is_threw (ends n) || any_threw ends n

-- Whether the first threads of the pool can all be created; if one cannot, `emplace_back` throws.
unfoldable pub all_created : (ℕ → Bool) → ℕ → Bool
all_created creates zero = true
all_created creates (suc n) = creates n && all_created creates n

-- The end of `main` after its threads have been created, with so many of them in the pool. An exception that
-- leaves a thread's function ends the process, and so does the destruction of threads that have not
-- been joined, which comes before the `catch`.
unfoldable pub leave : RunEnd → (ℕ → RunEnd) → ℕ → Exit
leave own ends workers =
    if any_threw ends workers
    then terminated
    else if is_threw own
    then if nat_beq workers 0 then exited 1 else terminated
    else exited 0

-- An exception as a thread is created reaches the `catch` only if it is the first: behind one, threads
-- that have not been joined are destroyed.
unfoldable pub run_pool : (ℕ → Bool) → RunEnd → (ℕ → RunEnd) → ℕ → Exit
unfolding leave all_created
run_pool creates own ends workers =
    if all_created creates workers
    then leave own ends workers
    else if creates 0
    then terminated
    else exited 1

unfoldable pub ended : Option Serving → (ℕ → Bool) → RunEnd → (ℕ → RunEnd) → Exit
unfolding run_pool
ended none creates own ends = exited 1
ended (some serving) creates own ends = run_pool creates own ends (serving.threads - 1)

-- What can be opened, which threads can be created, and how each run ends are parameters.
unfoldable pub main : (Settings → Bool) → Environment → (ℕ → Bool) → RunEnd → (ℕ → RunEnd) → Exit
unfolding ended
main opens getenv creates own ends = ended (start opens getenv) creates own ends

any_threw-found :
    (ends : ℕ → RunEnd) (n : ℕ) → any_threw ends n ≡ true → (i : ℕ) × (i < n) × (ends i ≡ threw)
unfolding any_threw
any_threw-found ends zero h = cc
any_threw-found ends (suc n) h = elim (Bool-cases (is_threw (ends n))) [
  | inl e ↦ (n, omega arith, ground arith)
  | inr e ↦ let (i, low, thrown) = any_threw-found ends n (ground arith) in (i, omega arith, thrown)
]

found-any_threw : (ends : ℕ → RunEnd) (n i : ℕ) → i < n → ends i ≡ threw → any_threw ends n ≡ true
unfolding any_threw
found-any_threw ends zero i low thrown = absurd (omega arith)
found-any_threw ends (suc n) i low thrown = elim (ℕ_discrete i n) [
  | yes e ↦ ground arith
  | no e ↦ ground (arith, found-any_threw ends n i (omega (arith, e)) thrown)
]

leave-one_iff :
    (own : RunEnd) (ends : ℕ → RunEnd) (workers : ℕ)
    → (leave own ends workers ≡ exited 1) ↔ ((own ≡ threw) × (workers ≡ 0))
unfolding leave any_threw
leave-one_iff own ends zero = (λ h. ground arith, λ (thrown, none_there). ground arith)
leave-one_iff own ends (suc n) = (λ h. ground arith, λ (thrown, none_there). ground arith)

run_cases : (r : RunEnd) → (r ≡ returned) ⊎ (r ≡ threw)
run_cases returned = inl refl
run_cases threw = inr refl

leave-zero_iff :
    (own : RunEnd) (ends : ℕ → RunEnd) (workers : ℕ)
    → (leave own ends workers ≡ exited 0)
      ↔ ((own ≡ returned) × ((i : ℕ) → i < workers → ends i ≡ returned))
unfolding leave
leave-zero_iff own ends workers = elim (Bool-cases (any_threw ends workers)) [
  | inl e ↦ (
    λ h. absurd (ground arith),
    λ (own_returned, all). absurd (
        let (i, low, thrown) = any_threw-found ends workers e in let q = all i low in ground arith),
  )
  | inr e ↦ (
    λ h. (
      ground arith,
      λ i low. elim (run_cases (ends i)) [
        | inl q ↦ q
        | inr q ↦ absurd (ground (arith, found-any_threw ends workers i low q))
      ],
    ),
    λ (own_returned, all). ground arith,
  )
]

all_created_iff :
    (creates : ℕ → Bool) (n : ℕ)
    → (all_created creates n ≡ true) ↔ ((i : ℕ) → i < n → creates i ≡ true)
unfolding all_created
all_created_iff creates zero = (λ h i low. absurd (omega arith), λ h. refl)
all_created_iff creates (suc n) =
    let (down, up) = all_created_iff creates n in
    (
      λ h i low. elim (ℕ_discrete i n) [
        | yes e ↦ ground arith
        | no e ↦ down (ground arith) i (omega (arith, e))
      ],
      λ h. let rest = up (λ i low. h i (omega arith)) in ground (arith, rest, h n (omega arith)),
    )

-- All threads are created, and every run returns.
abbrev pub AllReturned : (ℕ → Bool) → RunEnd → (ℕ → RunEnd) → ℕ → Type 0
AllReturned creates own ends workers =
    ((i : ℕ) → i < workers → creates i ≡ true)
    × (own ≡ returned)
    × ((i : ℕ) → i < workers → ends i ≡ returned)

-- An exception reaches the `catch`: there is a thread to create and the first one cannot be, or there is
-- none and `main`'s own run throws.
abbrev pub IsCaught : (ℕ → Bool) → RunEnd → ℕ → Type 0
IsCaught creates own workers =
    ((1 ≤ workers) × (creates 0 ≡ false)) ⊎ ((workers ≡ 0) × (own ≡ threw))

run_pool-zero_iff :
    (creates : ℕ → Bool) (own : RunEnd) (ends : ℕ → RunEnd) (workers : ℕ)
    → (run_pool creates own ends workers ≡ exited 0) ↔ AllReturned creates own ends workers
unfolding run_pool
run_pool-zero_iff creates own ends workers =
    let (all, back) = all_created_iff creates workers in
    let (down, up) = leave-zero_iff own ends workers in
    elim (Bool-cases (all_created creates workers)) [
      | inl e ↦ (
        λ h. let (mine, theirs) = down (rw e at h) in (all e, mine, theirs),
        λ (every, own_returned, ended_well). rw e (up (own_returned, ended_well)),
      )
      | inr e ↦ (
        λ h. absurd (ground arith),
        λ (every, own_returned, r). absurd (ground (arith, back every)),
      )
    ]

run_pool-one_iff :
    (creates : ℕ → Bool) (own : RunEnd) (ends : ℕ → RunEnd) (workers : ℕ)
    → (run_pool creates own ends workers ≡ exited 1) ↔ IsCaught creates own workers
unfolding run_pool
run_pool-one_iff creates own ends zero =
    let (down, up) = leave-one_iff own ends 0 in
    unfold all_created in
    (
      λ h. inr (refl, (down h).0),
      λ h. elim h [
        | inl (few, refused) ↦ absurd (omega (arith, few))
        | inr (none_there, thrown) ↦ up (thrown, refl)
      ],
    )
run_pool-one_iff creates own ends (suc n) =
    let (down, up) = leave-one_iff own ends (suc n) in
    let (all, back) = all_created_iff creates (suc n) in
    elim (Bool-cases (all_created creates (suc n))) [
      | inl e ↦
          let first = all e 0 (omega arith) in
          (
            λ h. let q = (down (rw e at h)).1 in absurd (omega (arith, q)),
            λ h. elim h [
              | inl (few, refused) ↦ absurd (ground arith)
              | inr (none_there, thrown) ↦ absurd (omega (arith, none_there))
            ],
          )
      | inr e ↦ elim (Bool-cases (creates 0)) [
        | inl first ↦ (
          λ h. absurd (ground arith),
          λ h. elim h [
            | inl (few, refused) ↦ absurd (ground arith)
            | inr (none_there, thrown) ↦ absurd (omega (arith, none_there))
          ],
        )
        | inr refused ↦ (λ h. inl (omega arith, refused), λ h. rw (e, refused) refl)
      ]
    ]

-- The start has succeeded, and then this holds of the number of threads in the pool.
abbrev pub Started : Option Serving → (ℕ → Type 0) → Type 0
Started started P = (s : Serving) × (started ≡ some s) × P (s.threads - 1)

ended-exits :
    (started : Option Serving) (creates : ℕ → Bool) (own : RunEnd) (ends : ℕ → RunEnd)
    → ((ended started creates own ends ≡ exited 0) ↔ Started started (AllReturned creates own ends))
      × ((ended started creates own ends ≡ exited 1)
          ↔ ((started ≡ none) ⊎ Started started (IsCaught creates own)))
unfolding ended
ended-exits none creates own ends =
    ((λ h. absurd (ground arith), λ (s, e, rest). cc), (λ h. inl refl, λ h. refl))
ended-exits (some s) creates own ends =
    let zero_iff = run_pool-zero_iff creates own ends (s.threads - 1) in
    let one_iff = run_pool-one_iff creates own ends (s.threads - 1) in
    let same =
      λ (P : ℕ → Type 0) (v : Serving) (e : Option.some s ≡ some v) (p : P (v.threads - 1)).
        subst (λ (u : Serving). P (u.threads - 1)) (sym (Option.some-injective s v e)) p in
    (
      (
        λ h. (s, refl, zero_iff.0 h),
        λ (v, e, p). zero_iff.1 (same (AllReturned creates own ends) v e p),
      ),
      (
        λ h. inr (s, refl, one_iff.0 h),
        λ h. elim h [ inl e ↦ cc | inr (v, e, p) ↦ one_iff.1 (same (IsCaught creates own) v e p) ],
      ),
    )

-- `main` returns 0 exactly if the server has started, every thread could be created, and every
-- thread's run has returned. It returns 1 exactly if the start has failed, or the first of its threads
-- could not be created, or an exception has left the run of a server with no thread but its own: with
-- more, an exception ends the process before the `catch`.
pub main_exits :
    (opens : Settings → Bool) (getenv : Environment) (creates : ℕ → Bool) (own : RunEnd)
    (ends : ℕ → RunEnd)
    → ((main opens getenv creates own ends ≡ exited 0)
        ↔ Started (start opens getenv) (AllReturned creates own ends))
      × ((main opens getenv creates own ends ≡ exited 1)
          ↔ ((start opens getenv ≡ none) ⊎ Started (start opens getenv) (IsCaught creates own)))
unfolding main
main_exits opens getenv creates own ends = ended-exits (start opens getenv) creates own ends
