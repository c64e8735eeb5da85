-- ===== src/Tests/Backends.antt =====
-- A registry of two backends (src/transport/proxy_handler.cpp) and the registrations that reach it.
use http2_server.Prelude.{
  ℕ, zero, suc, subst, Memᴰ, ◌≡◌, ◌≢◌, ◌↔◌, refl, ap, sym, ◌∙◌, Option, none, some, List, [], ◌∷◌,
  inl, inr, arith,
}
use http2_server.Prelude.Text.{Text, codes, text_eq, text_beq, IsPrefix}
use http2_server.Prelude.Int.{pos}
use http2_server.Prelude.Map.{lookup}
use http2_server.Registry.{ForwardingRule, Registry, empty, find_backend, first_match}
use http2_server.Registry.Selection.{
  WellFormed, Matches, Registered, find_backend_sound, find_backend-none_iff,
}
use http2_server.Registry.History.{Call, register, unregister, run, last_rule, lookup-run}
use http2_server.ProxyHandler.{handle_registration_request}
use http2_server.ProxyHandler.Registration.{registered, carry_out, handle_registration_request_lem}
use http2_server.Server.{initial}
use http2_server.Tests.Samples.{json, beast, order}

abbrev api : ForwardingRule
api = record {
  backend_id = codes "a";
  target_host = codes "h";
  target_port = pos 80;
  path_pattern = codes "/api";
}

abbrev files : ForwardingRule
files = record {
  backend_id = codes "f";
  target_host = codes "h";
  target_port = pos 81;
  path_pattern = codes "/files";
}

abbrev two : Registry
two = record { backends = (codes "a", api) ∷ (codes "f", files) ∷ [] }

-- A code point of a text, or 0.
at : ℕ → Text → ℕ
at n [] = 0
at zero (c ∷ t) = c
at (suc n) (c ∷ t) = at n t

ids_differ : codes "f" ≢ codes "a"
unfolding codes at
ids_differ h = absurd (omega (arith, ap (at 0) h))

patterns_differ : ¬ Matches (codes "/files/x") api
unfolding codes at
patterns_differ (rest, h) = absurd (omega (arith, ap (at 1) h))

two-WellFormed : WellFormed two
two-WellFormed = record { distinct = ((ids_differ, tt), (tt, tt)); keyed = (refl, (refl, tt)) }

only_files :
    (key : Text) (other : ForwardingRule)
    → Memᴰ (key, other) two.backends
    → Matches (codes "/files/x") other
    → other ≡ files
only_files key other (Memᴰ.head p) m = absurd (
    patterns_differ
      (subst (λ r. Matches (codes "/files/x") r) (ap (λ (e : Text × ForwardingRule). e.1) p) m))
only_files key other (Memᴰ.tail (Memᴰ.head p)) m = ap (λ (e : Text × ForwardingRule). e.1) p
only_files key other (Memᴰ.tail (Memᴰ.tail p)) m = elim p [ ]

empty-WellFormed : WellFormed empty
empty-WellFormed = record { distinct = tt; keyed = tt }

abbrev history : List Call
history =
    register (codes "a") (codes "h") (pos 80) (codes "/old")
    ∷ register (codes "b") (codes "h") (pos 82) (codes "/b")
    ∷ register (codes "a") (codes "h") (pos 80) (codes "/api")
    ∷ unregister (codes "b")
    ∷ []

found : find_backend order two (codes "/files/x") ≡ some files
unfolding find_backend first_match codes text_beq http2_server.Prelude.Text.find
    http2_server.Prelude.Text.found_at_start http2_server.Prelude.Text.starts_with
found = refl

find_backend_sound_example : Registered two (codes "f") files × Matches (codes "/files/x") files
find_backend_sound_example =
    find_backend_sound order two (codes "/files/x") files two-WellFormed found

find_backend-none_iff_example : (find_backend order two (codes "/none") ≡ none) ↔ (
    (id : Text) (rule : ForwardingRule) → Registered two id rule → ¬ Matches (codes "/none") rule)
find_backend-none_iff_example = find_backend-none_iff order two (codes "/none") two-WellFormed

lookup-run_example :
    lookup (codes "a") (run empty history).backends
    ≡ last_rule (codes "a") (lookup (codes "a") empty.backends) history
lookup-run_example = lookup-run empty history (codes "a") empty-WellFormed

handle_registration_request_lem_example :
    handle_registration_request json beast order
      (codes "POST")
      (codes "/proxy/register")
      []
      (pos 1)
      7
      initial
    ≡ carry_out json beast order 7
        (pos 1)
        (registered json beast order (codes "POST") (json.parse []) initial.registry)
        initial
handle_registration_request_lem_example =
    handle_registration_request_lem json beast order (codes "POST") (codes "/proxy/register") []
      (pos 1) 7 initial
