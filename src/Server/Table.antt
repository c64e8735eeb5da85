-- ===== src/Server/Table.antt =====
-- What holds of each callback that `main` (src/main.cpp) registers.
use http2_server.Prelude.{◌≡◌, some, [], pair_eq, pair_beq, subst, Bool-cases, inl, inr, arith}
use http2_server.Prelude.Text.{Text, text_eq}
use http2_server.Prelude.Map.{Map, lookup, lookup-insert, insert}
use http2_server.Json.{JsonLib}
use http2_server.Registry.{Order}
use http2_server.HttpClient.{Beast}
use http2_server.RequestHandler.{RequestCb, route_key, register_route}
use http2_server.RequestHandler.Routes.{route}
use http2_server.ProxyHandler.{handle_registration_request}
use http2_server.Server.{test_route, routes}

-- What every callback of a table has, one more callback included.
lookup-insert-cases :
    (P : RequestCb → Type 0) (key k : Text × Text) (v : RequestCb) (m : Map (Text × Text) RequestCb)
    → P v
    → ((cb : RequestCb) → lookup k m ≡ some cb → P cb)
    → (cb : RequestCb) → lookup k (insert key v m) ≡ some cb
    → P cb
lookup-insert-cases P key k v m pv all cb h = elim (Bool-cases (pair_beq key k)) [
  | inl q ↦ let e : v ≡ cb = ground (arith, lookup-insert key k v m) in subst P e pv
  | inr q ↦ all cb (ground (arith, lookup-insert key k v m))
]

not-lookup-nil : (k : Text × Text) (cb : RequestCb) → ¬ (lookup {V = RequestCb} k [] ≡ some cb)
unfolding lookup
not-lookup-nil k cb h = cc

module _ (J : JsonLib) (beast : Beast) (order : Order) where
  -- The callback of a route is one of the two that are registered.
  pub route-registered :
      (P : RequestCb → Type 0) (method path : Text) (callback : RequestCb)
      → P test_route
      → P (handle_registration_request J beast order)
      → route (routes J beast order) method path ≡ some callback
      → P callback
  unfolding routes register_route
  route-registered P method path callback test registration h =
      lookup-insert-cases P _ _ _ _ registration
        (lookup-insert-cases P _ _ _ _ registration (
          lookup-insert-cases P _ _ _ _ test
            (λ cb q. absurd (not-lookup-nil (route_key method path) cb q))))
        callback h
