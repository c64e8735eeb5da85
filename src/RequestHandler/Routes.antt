-- ===== src/RequestHandler/Routes.antt =====
-- How `RequestHandler` finds its routes, and how often it answers.
use http2_server.Prelude.{
  ◌≡◌, refl, ◌&&◌, Option, none, some, ◌==◌, if◌then◌else◌, pair_eq, ◌≢◌, Option-cases, inl, inr,
}
use http2_server.Prelude.Text.{Text, codes, text_eq, NoNul, c_str_of_NoNul}
use http2_server.Prelude.Int.{ℤ, pos}
use http2_server.Prelude.Map.{lookup, lookup-insert}
use http2_server.Json.{JsonLib}
use http2_server.World.{ResponseSender, ◌>>=◌}
use http2_server.World.Appends.{Appends, Appends-try, appends_rules}
use http2_server.World.Answers.{Counts, Counts-try, counts_rules, Total, Total-try, Total-respond}
use http2_server.RequestHandler.{
  RequestCb, RequestHandler, route_key, register_route, respond_json, handle_default_routes,
  run_route, handle_request, create_error_response,
}

-- The callback that a request reaches, if a route has one for it.
abbrev pub route : RequestHandler → Text → Text → Option RequestCb
route h method path = lookup (route_key method path) h.route_handlers

-- With no NUL in any of the four texts, registering a route changes the callback of exactly the
-- requests with the same method and the same path.
pub route-register_route :
    (h : RequestHandler) (m p m' p' : Text) (callback : RequestCb)
    → NoNul m
    → NoNul p
    → NoNul m'
    → NoNul p'
    → route (register_route m p callback h) m' p'
      ≡ (if (m == m') && (p == p') then some callback else route h m' p')
unfolding register_route route_key
route-register_route h m p m' p' callback hm hp hm' hp' =
    rw (c_str_of_NoNul m hm, c_str_of_NoNul p hp, c_str_of_NoNul m' hm', c_str_of_NoNul p' hp')
      (lookup-insert (m, p) (m', p') callback h.route_handlers)

module _ (J : JsonLib) (s : ResponseSender) (i : ℤ) where
  respond_json-Counts : (status : ℤ) (v : J.Value) → Counts s i (respond_json J s i status v)
  unfolding respond_json
  respond_json-Counts status v = search counts_rules

  respond_json-Total :
      (status : ℤ) (v : J.Value) → J.dump v ≢ none → Total (respond_json J s i status v)
  unfolding respond_json ◌>>=◌
  respond_json-Total status v h = elim (Option-cases (J.dump v)) [
    | inl e ↦ absurd (h e)
    | inr (text, e) ↦ record { returns = λ w. rw (e, ◌>>=◌) ((Total-respond s i _).returns w) }
  ]

  handle_default_routes-Counts :
      (method path body : Text) → Counts s i (handle_default_routes J method path body i s)
  unfolding handle_default_routes
  handle_default_routes-Counts method path body = search (counts_rules, respond_json-Counts)

  run_route-Counts :
      (found : Option RequestCb) (method path body : Text)
      → ((callback : RequestCb)
          → found ≡ some callback
          → Counts s i (callback method path body i s))
      → Counts s i (run_route J found method path body i s)
  unfolding run_route
  run_route-Counts none method path body h = handle_default_routes-Counts method path body
  run_route-Counts (some callback) method path body h = h callback refl

  pub handle_request-Counts :
      (h : RequestHandler) (method path body : Text)
      → ((callback : RequestCb)
          → route h method path ≡ some callback
          → Counts s i (callback method path body i s))
      → Counts s i (handle_request J h method path body i s)
  unfolding handle_request
  handle_request-Counts h method path body all =
      Counts-try s i _ _ (run_route-Counts (route h method path) method path body all)
        (respond_json-Counts _ _)

  respond_json-Appends : (status : ℤ) (v : J.Value) → Appends s (respond_json J s i status v)
  unfolding respond_json
  respond_json-Appends status v = search appends_rules

  handle_default_routes-Appends :
      (method path body : Text) → Appends s (handle_default_routes J method path body i s)
  unfolding handle_default_routes
  handle_default_routes-Appends method path body = search (appends_rules, respond_json-Appends)

  run_route-Appends :
      (found : Option RequestCb) (method path body : Text)
      → ((callback : RequestCb) → found ≡ some callback → Appends s (callback method path body i s))
      → Appends s (run_route J found method path body i s)
  unfolding run_route
  run_route-Appends none method path body h = handle_default_routes-Appends method path body
  run_route-Appends (some callback) method path body h = h callback refl

  pub handle_request-Appends :
      (h : RequestHandler) (method path body : Text)
      → ((callback : RequestCb)
          → route h method path ≡ some callback
          → Appends s (callback method path body i s))
      → Appends s (handle_request J h method path body i s)
  unfolding handle_request
  handle_request-Appends h method path body all =
      Appends-try s _ _ (run_route-Appends (route h method path) method path body all)
        (respond_json-Appends _ _)

  pub handle_request-Total :
      (h : RequestHandler) (method path body : Text)
      → J.dump (create_error_response J (pos 500) (codes "Internal server error")) ≢ none
      → Total (handle_request J h method path body i s)
  unfolding handle_request
  handle_request-Total h method path body d = Total-try _ _ (respond_json-Total _ _ d)
