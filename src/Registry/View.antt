-- ===== src/Registry/View.antt =====
-- The registry (src/transport/proxy_handler.cpp) without the layout of its map: a quotient in which only
-- what stands under each id counts.
use mathlib.Core.Quot
use mathlib.Core.Quot.{Quot, Quot-set}
use http2_server.Prelude.{
  ◌≡◌, refl, sym, ap, ◌∙◌, ◌≢◌, eq_iff, Option, none, some, List, [], ◌∷◌, Bool, true, false,
  Option-cases, inl, inr, arith,
}
use http2_server.Prelude.Text.{Text, text_eq}
use http2_server.Prelude.Map.{lookup}
use http2_server.Registry.{ForwardingRule, Registry, Order, find_backend}
use http2_server.Registry.Selection.{WellFormed, find_backend-none_iff}
use http2_server.Registry.History.{
  Call, register, unregister, call, run, last_rule, lookup-run, lookup-call, call-WellFormed,
  run-WellFormed,
}

abbrev pub Held : Type 0
Held = (r : Registry) × WellFormed r

-- The same rule under every id.
abbrev pub SameRules : Held → Held → Type 0
SameRules a b = (id : Text) → lookup id a.0.backends ≡ lookup id b.0.backends

abbrev pub View : Type 0
View = Quot SameRules

abbrev pub view : Held → View
view a = Quot.mk a

abbrev pub is_some : {A : Type 0} → Option A → Bool
is_some none = false
is_some (some a) = true

lost_alike :
    (o o' : Order) (path : Text) (a b : Held)
    → SameRules a b
    → find_backend o a.0 path ≡ none
    → find_backend o' b.0 path ≡ none
lost_alike o o' path a b h e =
    (find_backend-none_iff o' b.0 path b.1).1
      λ id rule there. (find_backend-none_iff o a.0 path a.1).0 e id rule (h id ∙ there)

-- A path has a backend or has none alike in registries with the same rules, whatever the two walks.
routable_alike :
    (o o' : Order) (path : Text) (a b : Held)
    → SameRules a b
    → is_some (find_backend o a.0 path) ≡ is_some (find_backend o' b.0 path)
routable_alike o o' path a b h = elim (Option-cases (find_backend o a.0 path)) [
  | inl e ↦ rw (e, lost_alike o o' path a b h e) refl
  | inr (rule, e) ↦ elim (Option-cases (find_backend o' b.0 path)) [
    | inl e' ↦
        let lost : find_backend o a.0 path ≡ none =
          lost_alike o' o path b a (λ id. sym (h id)) e' in
        cc
    | inr (other, e') ↦ rw (e, e') refl
  ]
]

call_alike :
    (c : Call) (a b : Held)
    → SameRules a b
    → (id : Text) → lookup id (call a.0 c).backends ≡ lookup id (call b.0 c).backends
call_alike c a b h id =
    lookup-call a.0 c id a.1
    ∙ ap (λ o. last_rule id o (c ∷ [])) (h id)
    ∙ sym (lookup-call b.0 c id b.1)

abbrev pub call_held : Call → Held → Held
call_held c a = (call a.0 c, call-WellFormed a.0 c a.1)

-- A call of the registry, on its view.
pub view_call : Call → View → View
view_call c =
    Quot.lift Quot-set (λ a. view (call_held c a)) (λ a b h. Quot.sound (call_alike c a b h))

pub view_run : View → List Call → View
view_run v [] = v
view_run v (c ∷ cs) = view_run (view_call c v) cs

-- Whether a path has a backend: the view decides it.
pub routable : Order → Text → View → Bool
routable o path =
    Quot.lift (hlevel) (λ (a : Held). is_some (find_backend o a.0 path)) (routable_alike o o path)

routable_any_order :
    (o o' : Order) (path : Text) (v : View) → routable o path v ≡ routable o' path v
unfolding routable
routable_any_order o o' path =
    Quot.ind (λ v. hlevel) (λ a. routable_alike o o' path a a (λ id. refl))

view-run :
    (a : Held) (cs : List Call)
    → view (run a.0 cs, run-WellFormed a.0 cs a.1) ≡ view_run (view a) cs
unfolding view_run view_call run
view-run a [] = Quot.sound (λ id. refl)
view-run a (c ∷ cs) = Quot.sound (λ id. refl) ∙ view-run (call_held c a) cs

-- From a registry that is well formed, any two histories that leave the same last rule for each id
-- lead the view to one and the same value, and then under any two orders of the walk the paths that
-- have a backend after the one are those that have one after the other.
pub histories_alike :
    (a : Held) (cs ds : List Call)
    → ((id : Text)
        → last_rule id (lookup id a.0.backends) cs ≡ last_rule id (lookup id a.0.backends) ds)
    → (view_run (view a) cs ≡ view_run (view a) ds)
      × ((o o' : Order) (path : Text)
          → is_some (find_backend o (run a.0 cs) path)
            ≡ is_some (find_backend o' (run a.0 ds) path))
unfolding routable
histories_alike a cs ds h =
    let same : SameRules (run a.0 cs, run-WellFormed a.0 cs a.1)
        (run a.0 ds, run-WellFormed a.0 ds a.1) =
      λ id. lookup-run a.0 cs id a.1 ∙ h id ∙ sym (lookup-run a.0 ds id a.1) in
    let one = Quot.sound {r = SameRules} same in
    (
      sym (view-run a cs) ∙ one ∙ view-run a ds,
      λ o o' path.
          routable_any_order o o' path (view (run a.0 cs, run-WellFormed a.0 cs a.1))
          ∙ ap (routable o' path) one,
    )

-- The id that a call names.
abbrev pub named : Call → Text
named (register id host port pattern) = id
named (unregister id) = id

last_rule-swap :
    (c d : Call) (id : Text) (o : Option ForwardingRule)
    → named c ≢ named d
    → last_rule id o (c ∷ d ∷ []) ≡ last_rule id o (d ∷ c ∷ [])
unfolding last_rule
last_rule-swap (register k host port pattern) (register k' host' port' pattern') id o h =
    ground (arith, eq_iff k id, eq_iff k' id)
last_rule-swap (register k host port pattern) (unregister k') id o h =
    ground (arith, eq_iff k id, eq_iff k' id)
last_rule-swap (unregister k) (register k' host port pattern) id o h =
    ground (arith, eq_iff k id, eq_iff k' id)
last_rule-swap (unregister k) (unregister k') id o h = ground (arith, eq_iff k id, eq_iff k' id)

-- Calls that name different ids commute in the view, which does not depend on the layout of the map.
view_call_comm :
    (c d : Call) (v : View) → named c ≢ named d → view_run v (c ∷ d ∷ []) ≡ view_run v (d ∷ c ∷ [])
view_call_comm c d v h =
    Quot.ind {β = λ v. view_run v (c ∷ d ∷ []) ≡ view_run v (d ∷ c ∷ [])} (λ v. Quot-set _ _)
      (λ a. (histories_alike a (c ∷ d ∷ []) (d ∷ c ∷ []) (λ id. last_rule-swap c d id _ h)).0) v
