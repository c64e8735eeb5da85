-- ===== src/Registry.antt =====
-- `BackendRegistry` (src/transport/proxy_handler.hpp and proxy_handler.cpp): the rules by backend id.
-- Each method holds the mutex for its whole body, so a history is a list of whole calls.
pub mod Selection
pub mod History
pub mod Overlap
pub mod View
use http2_server.Prelude.{ℕ, ◌≡◌, ◌↔◌, Option, none, some, List, [], ◌∷◌, Memᴰ, if◌then◌else◌}
use http2_server.Prelude.Text.{Text, text_eq, found_at_start}
use http2_server.Prelude.Int.{ℤ}
use http2_server.Prelude.Map.{Map, lookup, insert, erase}

pub record ForwardingRule : Type 0 where
  pub backend_id : Text
  pub target_host : Text
  pub target_port : ℤ
  pub path_pattern : Text

pub record Registry : Type 0 where
  pub backends : Map Text ForwardingRule

abbrev pub empty : Registry
empty = record { backends = [] }

unfoldable pub register_backend : Text → Text → ℤ → Text → Registry → Registry
register_backend backend_id host port path_pattern r = record {
  backends =
      insert backend_id
        (record {
          backend_id = backend_id;
          target_host = host;
          target_port = port;
          path_pattern = path_pattern;
        })
        r.backends;
}

-- The code finds the entry and then erases it; erasing a missing key does nothing.
unfoldable pub unregister_backend : Text → Registry → Registry
unregister_backend backend_id r = record { backends = erase backend_id r.backends }

-- The order in which an `unordered_map` is walked. The standard leaves it open: every entry is met,
-- and nothing else.
pub record Order : Type 0 where
  pub walk : Map Text ForwardingRule → List (Text × ForwardingRule)
  pub walk_mem :
      (m : Map Text ForwardingRule) (p : Text × ForwardingRule) → Memᴰ p (walk m) ↔ Memᴰ p m

-- The loop of `find_backend`.
unfoldable pub first_match : Text → List (Text × ForwardingRule) → Option ForwardingRule
first_match path [] = none
first_match path ((id, rule) ∷ rest) =
    if found_at_start path rule.path_pattern then some rule else first_match path rest

unfoldable pub find_backend : Order → Registry → Text → Option ForwardingRule
unfolding first_match
find_backend order r path = first_match path (order.walk r.backends)
