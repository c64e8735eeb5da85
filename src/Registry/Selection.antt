-- ===== src/Registry/Selection.antt =====
-- Which rule `find_backend` selects.
use http2_server.Prelude.{
  ◌≡◌, sym, ◌∙◌, ap, subst, ◌↔◌, inl, inr, none, some, List, [], ◌∷◌, Memᴰ, Bool-cases,
  Option-cases, All, arith,
}
use http2_server.Prelude.Text.{Text, text_eq, IsPrefix, found_at_start, found_at_start_iff}
use http2_server.Prelude.Map.{Distinct, lookup, lookup_of_mem, mem_of_lookup}
use http2_server.Registry.{ForwardingRule, Registry, Order, first_match, find_backend}

-- The path begins with the pattern of the rule.
abbrev pub Matches : Text → ForwardingRule → Type 0
Matches path rule = IsPrefix rule.path_pattern path

-- The rule is registered under this id.
abbrev pub Registered : Registry → Text → ForwardingRule → Type 0
Registered r id rule = lookup id r.backends ≡ some rule

first_match_sound :
    (path : Text) (rules : List (Text × ForwardingRule)) (rule : ForwardingRule)
    → first_match path rules ≡ some rule
    → (id : Text) × Memᴰ (id, rule) rules × Matches path rule
unfolding first_match
first_match_sound path [] rule h = cc
first_match_sound path ((id, other) ∷ rest) rule h =
    elim (Bool-cases (found_at_start path other.path_pattern)) [
      | inl q ↦
          let e : other ≡ rule = ground arith in
          (
            id,
            Memᴰ.head (ap (λ (x : ForwardingRule). (id, x)) (sym e)),
            (found_at_start_iff path rule.path_pattern).0 (rw (← e) q),
          )
      | inr q ↦
          let (key, found, m) = first_match_sound path rest rule (ground arith) in
          (key, Memᴰ.tail found, m)
    ]

first_match_complete :
    (path : Text) (rules : List (Text × ForwardingRule)) (id : Text) (rule : ForwardingRule)
    → first_match path rules ≡ none
    → Memᴰ (id, rule) rules
    → ¬ Matches path rule
unfolding first_match
first_match_complete path [] id rule h p m = elim p [ ]
first_match_complete path ((key, other) ∷ rest) id rule h (Memᴰ.head p) m =
    let e : rule ≡ other = ap (λ (a : Text × ForwardingRule). a.1) p in
    let q = (found_at_start_iff path other.path_pattern).1 (rw e at m) in ground arith
first_match_complete path ((key, other) ∷ rest) id rule h (Memᴰ.tail p) m =
    first_match_complete path rest id rule (ground arith) p m

-- One entry for each id, and each rule carries its own id.
pub record WellFormed (r : Registry) : Type 0 where
  pub distinct : Distinct r.backends
  pub keyed : All (λ p. p.1.backend_id ≡ p.0) r.backends

All-mem {ℓ κ} : {A : Type ℓ} (P : A → Type κ) (xs : List A) {a : A} → All P xs → Memᴰ a xs → P a
All-mem P [] h p = elim p [ ]
All-mem P (x ∷ xs) h (Memᴰ.head p) = rw p h.0
All-mem P (x ∷ xs) h (Memᴰ.tail p) = All-mem P xs h.1 p

-- In a well-formed registry, whatever the order of the walk, the selected rule is registered under
-- its own id and its pattern is a prefix of the path.
pub find_backend_sound :
    (order : Order) (r : Registry) (path : Text) (rule : ForwardingRule)
    → WellFormed r
    → find_backend order r path ≡ some rule
    → Registered r rule.backend_id rule × Matches path rule
unfolding find_backend
find_backend_sound order r path rule w h =
    let (id, found, m) = first_match_sound path (order.walk r.backends) rule h in
    let entry = (order.walk_mem r.backends (id, rule)).0 found in
    let same = All-mem (λ (p : Text × ForwardingRule). p.1.backend_id ≡ p.0) _ w.keyed entry in
    (
      subst (λ k. lookup k r.backends ≡ some rule) (sym same)
          (lookup_of_mem id rule r.backends w.distinct entry),
      m,
    )

-- In a well-formed registry, whatever the order of the walk, no rule is selected exactly when no
-- registered rule matches: the walk misses none.
pub find_backend-none_iff :
    (order : Order) (r : Registry) (path : Text)
    → WellFormed r
    → (find_backend order r path ≡ none)
      ↔ ((id : Text) (rule : ForwardingRule) → Registered r id rule → ¬ Matches path rule)
unfolding find_backend
find_backend-none_iff order r path w = (
  λ h id rule p.
      first_match_complete path (order.walk r.backends) id rule h
        ((order.walk_mem r.backends (id, rule)).1 (mem_of_lookup id rule r.backends p)),
  λ all. elim (Option-cases (first_match path (order.walk r.backends))) [
    | inl e ↦ e
    | inr (rule, e) ↦
        let (p, m) = find_backend_sound order r path rule w e in absurd (all _ rule p m)
  ],
)

-- In a well-formed registry, if a registered rule matches and no other does, every order of the walk
-- selects it.
find_backend_unique :
    (order : Order) (r : Registry) (path id : Text) (rule : ForwardingRule)
    → WellFormed r
    → Registered r id rule
    → Matches path rule
    → ((key : Text) (other : ForwardingRule)
        → Registered r key other
        → Matches path other
        → other ≡ rule)
    → find_backend order r path ≡ some rule
find_backend_unique order r path id rule w p m only =
    elim (Option-cases (find_backend order r path)) [
      | inl e ↦ absurd ((find_backend-none_iff order r path w).0 e id rule p m)
      | inr (other, e) ↦
          let (q, n) = find_backend_sound order r path other w e in e ∙ ap some (only _ other q n)
    ]
