-- ===== src/Http1Proxy/Site/Entries.antt =====
-- The requests of the sessions (src/transport/http1_proxy.cpp) that have not ended.
use mathlib.Core.Option
use http2_server.Prelude.{
  member_at, replace_at, ◌≢◌, ℕ, zero, suc, ◌≡◌, refl, sym, ap, ◌∙◌, some, List, [], ◌∷◌, ◌++◌,
  Bool, false, if◌then◌else◌, nat_eq, Memᴰ, Bool-cases, inl, inr, length, not, arith, eq_refl,
  eq_iff, keep_if,
}
use http2_server.Prelude.Map.{Map, insert, erase, Distinct, Fresh, ne_of_Fresh-mem}
use http2_server.ActiveRequest.{Pointer}
use http2_server.Http1Proxy.Site.{Member}
use http2_server.Http1Proxy.Site.{is_ended}

-- The requests of the sessions that have not ended, in the order of their connections.
abbrev pub open_entries : List Member → Map ℕ Pointer
open_entries [] = []
open_entries (x ∷ xs) =
    if is_ended x.phase then open_entries xs else (x.request_id, x.active_request) ∷ open_entries xs

pub insert-Fresh :
    (k : ℕ) (v : Pointer) (m : Map ℕ Pointer) → Fresh k m → insert k v m ≡ m ++ (k, v) ∷ []
unfolding insert
insert-Fresh k v [] h = refl
insert-Fresh k v ((j, w) ∷ m) h = ground (arith, eq_iff j k, h.0, insert-Fresh k v m h.1)

pub open_entries-append :
    (xs : List Member) (x : Member)
    → is_ended x.phase ≡ false
    → open_entries (xs ++ x ∷ []) ≡ open_entries xs ++ (x.request_id, x.active_request) ∷ []
open_entries-append [] x h = rw h refl
open_entries-append (y ∷ xs) x h = elim (Bool-cases (is_ended y.phase)) [
  | inl e ↦ rw e (open_entries-append xs x h)
  | inr e ↦ rw e (ap (λ t. (y.request_id, y.active_request) ∷ t) (open_entries-append xs x h))
]

pub member_at-mem :
    (i : ℕ) (xs : List Member) (x : Member)
    → member_at i xs ≡ some x
    → is_ended x.phase ≡ false
    → Memᴰ (x.request_id, x.active_request) (open_entries xs)
member_at-mem i [] x h o = absurd (ground arith)
member_at-mem zero (y ∷ xs) x h o =
    let same = Option.some-injective y x h in
    rw (sym same) (rw (ap (λ (z : Member). is_ended z.phase) same ∙ o) (Memᴰ.head refl))
member_at-mem (suc i) (y ∷ xs) x h o = elim (Bool-cases (is_ended y.phase)) [
  | inl e ↦ rw e (member_at-mem i xs x h o)
  | inr e ↦ rw e (Memᴰ.tail (member_at-mem i xs x h o))
]

first-open :
    (xs : List Member) (x y : Member)
    → is_ended x.phase ≡ false
    → y.request_id ≡ x.request_id
    → y.active_request ≡ x.active_request
    → open_entries (y ∷ xs) ≡ (
        if is_ended y.phase
        then erase x.request_id (open_entries (x ∷ xs))
        else open_entries (x ∷ xs))
unfolding erase
first-open xs x y o a b = rw (o, eq_refl x.request_id, a, b) refl

later-open :
    (b : Bool) (j k : ℕ) (p : Pointer) (m : Map ℕ Pointer)
    → k ≢ j
    → ((j, p) ∷ (if b then erase k m else m)) ≡ (if b then erase k ((j, p) ∷ m) else ((j, p) ∷ m))
unfolding erase
later-open b j k p m n = ground (arith, n, eq_iff j k)

-- The entries once a session that was open has become another.
pub replace_at-open :
    (i : ℕ) (xs : List Member) (x y : Member)
    → member_at i xs ≡ some x
    → is_ended x.phase ≡ false
    → y.request_id ≡ x.request_id
    → y.active_request ≡ x.active_request
    → Distinct (open_entries xs)
    → open_entries (replace_at i y xs)
      ≡ (if is_ended y.phase then erase x.request_id (open_entries xs) else open_entries xs)
replace_at-open i [] x y h o a b d = absurd (ground arith)
replace_at-open zero (z ∷ xs) x y h o a b d =
    first-open xs x y o a b
    ∙ ap
        (λ w.
          if is_ended y.phase
          then erase x.request_id (open_entries (w ∷ xs))
          else open_entries (w ∷ xs))
        (sym (Option.some-injective z x h))
replace_at-open (suc i) (z ∷ xs) x y h o a b d = elim (Bool-cases (is_ended z.phase)) [
  | inl e ↦ rw e (replace_at-open i xs x y h o a b (rw e at d))
  | inr e ↦
      let apart =
        ne_of_Fresh-mem z.request_id x.request_id x.active_request (open_entries xs) ((rw e at d).0)
          (member_at-mem i xs x h o) in
      rw e (
        ap (λ t. (z.request_id, z.active_request) ∷ t)
          (replace_at-open i xs x y h o a b ((rw e at d).1))
        ∙ later-open (is_ended y.phase) z.request_id x.request_id z.active_request (open_entries xs)
            apart)
]

pub length-open_entries :
    (xs : List Member)
    → length (open_entries xs) ≡ length (keep_if (λ x. not (is_ended x.phase)) xs)
length-open_entries [] = refl
length-open_entries (x ∷ xs) = elim (Bool-cases (is_ended x.phase)) [
  | inl e ↦ rw e (length-open_entries xs)
  | inr e ↦ rw e (ap suc (length-open_entries xs))
]
