-- ===== src/Registry/Overlap.antt =====
-- Overlapping patterns in `find_backend`: the order of the walk decides.
use http2_server.Prelude.{
  ◌≡◌, ◌↔◌, inl, inr, none, some, List, [], ◌∷◌, Memᴰ, ◌==◌, eq_iff, Bool-cases, Option-cases,
  arith, subst,
}
use http2_server.Prelude.Text.{Text, text_eq, found_at_start_iff}
use http2_server.Prelude.Map.{Map, lookup, erase}
use http2_server.Registry.{ForwardingRule, Registry, Order, first_match, find_backend}
use http2_server.Registry.Selection.{Matches, Registered}

abbrev Rules : Type 0
Rules = Map Text ForwardingRule

-- The walk that meets the entry of this id first.
to_front : Text → Rules → Rules
to_front id m = elim (lookup id m) [ none ↦ m | some rule ↦ (id, rule) ∷ erase id m ]

mem-swap {ℓ} : {A : Type ℓ} {a b p : A} {xs : List A} → Memᴰ p (a ∷ b ∷ xs) → Memᴰ p (b ∷ a ∷ xs)
mem-swap (Memᴰ.head e) = Memᴰ.tail (Memᴰ.head e)
mem-swap (Memᴰ.tail (Memᴰ.head e)) = Memᴰ.head e
mem-swap (Memᴰ.tail (Memᴰ.tail q)) = Memᴰ.tail (Memᴰ.tail q)

mem_under {ℓ} :
    {A : Type ℓ} {b p : A} {xs ys : List A}
    → (Memᴰ p xs → Memᴰ p ys)
    → Memᴰ p (b ∷ xs)
    → Memᴰ p (b ∷ ys)
mem_under f (Memᴰ.head e) = Memᴰ.head e
mem_under f (Memᴰ.tail q) = Memᴰ.tail (f q)

mem-erase :
    (id : Text) (rule : ForwardingRule) (m : Rules) (p : Text × ForwardingRule)
    → lookup id m ≡ some rule
    → Memᴰ p ((id, rule) ∷ erase id m) ↔ Memᴰ p m
unfolding lookup erase
mem-erase id rule [] p h = cc
mem-erase id rule ((j, other) ∷ m) p h = elim (Bool-cases (j == id)) [
  | inl q ↦
      let same : (id, rule) ∷ m ≡ (j, other) ∷ m = ground (arith, eq_iff j id) in
      rw q (subst (λ xs. Memᴰ p ((id, rule) ∷ m) ↔ Memᴰ p xs) same (λ x. x, λ x. x))
  | inr q ↦
      let ih = mem-erase id rule m p (ground arith) in
      rw q (λ x. mem_under ih.0 (mem-swap x), λ x. mem-swap (mem_under ih.1 x))
]

to_front_mem :
    (id : Text) (m : Rules) (p : Text × ForwardingRule) → Memᴰ p (to_front id m) ↔ Memᴰ p m
unfolding to_front
to_front_mem id m p = elim (Option-cases (lookup id m)) [
  | inl e ↦ rw (e, to_front) (λ x. x, λ x. x)
  | inr (rule, e) ↦ rw (e, to_front) (mem-erase id rule m p e)
]

pub front_order : Text → Order
front_order id = record { walk = to_front id; walk_mem = to_front_mem id }

-- Every registered rule that matches a path is selected under some order of the walk: where
-- patterns overlap, neither the longest pattern nor the latest registration has precedence.
find_backend_overlap :
    (r : Registry) (path id : Text) (rule : ForwardingRule)
    → Registered r id rule
    → Matches path rule
    → (order : Order) × (find_backend order r path ≡ some rule)
unfolding find_backend front_order to_front first_match
find_backend_overlap r path id rule p m =
    let q = (found_at_start_iff path rule.path_pattern).1 m in
    (front_order id, rw (p, to_front) (ground arith))
