-- ===== src/Tests/Views.antt =====
-- Two histories of the registry (src/transport/proxy_handler.cpp) that end alike.
use http2_server.Prelude.{◌≡◌, refl, false, ◌==◌, eq_iff, List, [], ◌∷◌, arith}
use http2_server.Prelude.Text.{Text, codes, text_eq, text_beq}
use http2_server.Prelude.Int.{pos}
use http2_server.Prelude.Map.{lookup}
use http2_server.Registry.{Order, empty, find_backend}
use http2_server.Registry.Selection.{WellFormed}
use http2_server.Registry.History.{Call, register, unregister, run, last_rule}
use http2_server.Registry.View.{Held, view, view_run, is_some, histories_alike}

empty-WellFormed : WellFormed empty
empty-WellFormed = record { distinct = tt; keyed = tt }

abbrev start : Held
start = (empty, empty-WellFormed)

-- A backend that moves to another port, and one that is gone again.
abbrev moved : List Call
moved =
    register (codes "a") (codes "h") (pos 80) (codes "/api")
    ∷ register (codes "b") (codes "h") (pos 90) (codes "/b")
    ∷ register (codes "a") (codes "h") (pos 81) (codes "/api")
    ∷ unregister (codes "b")
    ∷ []

abbrev direct : List Call
direct = unregister (codes "b") ∷ register (codes "a") (codes "h") (pos 81) (codes "/api") ∷ []

ids_differ : (codes "a" == codes "b") ≡ false
unfolding codes text_beq
ids_differ = refl

ends_alike :
    (id : Text)
    → last_rule id (lookup id start.0.backends) moved
      ≡ last_rule id (lookup id start.0.backends) direct
unfolding last_rule lookup
ends_alike id = ground (
  arith,
  eq_iff (codes "a") id,
  eq_iff (codes "b") id,
  eq_iff (codes "a") (codes "b"),
  ids_differ,
)

histories_alike_example :
    (view_run (view start) moved ≡ view_run (view start) direct)
    × ((o o' : Order) (path : Text)
        → is_some (find_backend o (run start.0 moved) path)
          ≡ is_some (find_backend o' (run start.0 direct) path))
histories_alike_example = histories_alike start moved direct ends_alike
