-- ===== src/Registry/History.antt =====
-- The registry after a history of calls, against the plain reading of that history.
use http2_server.Prelude.{
  ◌≡◌, refl, sym, ◌∙◌, Option, none, some, List, [], ◌∷◌, if◌then◌else◌, ◌==◌, All, arith, ap,
}
use http2_server.Prelude.Text.{Text, text_eq}
use http2_server.Prelude.Int.{ℤ}
use http2_server.Prelude.Map.{
  Map, lookup, insert, erase, insert-Distinct, erase-Distinct, lookup-insert, lookup-erase,
}
use http2_server.Registry.{ForwardingRule, Registry, register_backend, unregister_backend}
use http2_server.Registry.Selection.{WellFormed}

-- The calls that change the registry.
pub data Call : Type 0 where
  register : Text → Text → ℤ → Text → Call
  unregister : Text → Call

pub call : Registry → Call → Registry
unfolding register_backend unregister_backend
call r (register id host port pattern) = register_backend id host port pattern r
call r (unregister id) = unregister_backend id r

unfoldable pub run : Registry → List Call → Registry
run r [] = r
run r (c ∷ cs) = run (call r c) cs

-- The plain reading, one id at a time: the last call that names the id decides.
unfoldable pub last_rule : Text → Option ForwardingRule → List Call → Option ForwardingRule
last_rule id now [] = now
last_rule id now (register key host port pattern ∷ cs) =
    last_rule id
      (if key == id
        then some (record {
          backend_id = key;
          target_host = host;
          target_port = port;
          path_pattern = pattern;
        })
        else now)
      cs
last_rule id now (unregister key ∷ cs) = last_rule id (if key == id then none else now) cs

keyed-insert :
    (id : Text) (rule : ForwardingRule) (m : Map Text ForwardingRule)
    → rule.backend_id ≡ id
    → All (λ p. p.1.backend_id ≡ p.0) m
    → All (λ p. p.1.backend_id ≡ p.0) (insert id rule m)
unfolding insert
keyed-insert id rule [] e h = (e, tt)
keyed-insert id rule ((j, w) ∷ m) e h = ground (arith, keyed-insert id rule m e h.1)

keyed-erase :
    (id : Text) (m : Map Text ForwardingRule)
    → All (λ p. p.1.backend_id ≡ p.0) m
    → All (λ p. p.1.backend_id ≡ p.0) (erase id m)
unfolding erase
keyed-erase id [] h = tt
keyed-erase id ((j, w) ∷ m) h = ground (arith, keyed-erase id m h.1)

pub call-WellFormed : (r : Registry) (c : Call) → WellFormed r → WellFormed (call r c)
unfolding call
call-WellFormed r (register id host port pattern) w = record {
  distinct = insert-Distinct id _ r.backends w.distinct;
  keyed = keyed-insert id _ r.backends refl w.keyed;
}
call-WellFormed r (unregister id) w = record {
  distinct = erase-Distinct id r.backends w.distinct;
  keyed = keyed-erase id r.backends w.keyed;
}

-- From a well-formed registry, every history keeps one entry for each id, under the id that the rule
-- carries.
pub run-WellFormed : (r : Registry) (cs : List Call) → WellFormed r → WellFormed (run r cs)
unfolding run
run-WellFormed r [] w = w
run-WellFormed r (c ∷ cs) w = run-WellFormed (call r c) cs (call-WellFormed r c w)

pub lookup-call :
    (r : Registry) (c : Call) (id : Text)
    → WellFormed r
    → lookup id (call r c).backends ≡ last_rule id (lookup id r.backends) (c ∷ [])
unfolding call last_rule
lookup-call r (register key host port pattern) id w = lookup-insert key id _ r.backends
lookup-call r (unregister key) id w = lookup-erase key id r.backends w.distinct

last_rule-cons :
    (id : Text) (now : Option ForwardingRule) (c : Call) (cs : List Call)
    → last_rule id now (c ∷ cs) ≡ last_rule id (last_rule id now (c ∷ [])) cs
unfolding last_rule
last_rule-cons id now (register key host port pattern) cs = refl
last_rule-cons id now (unregister key) cs = refl

-- From a well-formed registry, what a history leaves under an id is what the last call that names
-- the id decides: the rule of a registration, nothing after a removal, and the old entry if no call
-- names it.
pub lookup-run :
    (r : Registry) (cs : List Call) (id : Text)
    → WellFormed r
    → lookup id (run r cs).backends ≡ last_rule id (lookup id r.backends) cs
unfolding run
lookup-run r [] id w = unfold last_rule in refl
lookup-run r (c ∷ cs) id w =
    lookup-run (call r c) cs id (call-WellFormed r c w)
    ∙ ap (λ o. last_rule id o cs) (lookup-call r c id w)
    ∙ sym (last_rule-cons id (lookup id r.backends) c cs)
