-- ===== src/Http1Proxy/Site.antt =====
-- `Http1ProxyServer` with all its sessions (src/transport/http1_proxy.cpp): they share the registry and
-- the manager of active requests, and their operations complete in any order.
pub mod Moves
pub mod Entries
pub mod Counting
use http2_server.Prelude.{
  ℕ, Option, none, some, List, [], ◌∷◌, ◌++◌, Bool, true, false, member_at, replace_at,
}
use http2_server.Json.{JsonLib}
use http2_server.Registry.{Registry, Order}
use http2_server.HttpClient.{HttpMessage}
use http2_server.ActiveRequest.{Manager, Pointer, no_requests}
use http2_server.Http1Proxy.{Phase, ended, Session, Completion, new_session, start, on_completion}

abbrev pub is_ended : Phase → Bool
is_ended ended = true
is_ended _ = false

-- What a session has for itself.
pub record Member : Type 0 where
  pub active_request : Pointer
  pub request_id : ℕ
  pub phase : Phase
  pub sent : List HttpMessage

pub record Site : Type 0 where
  pub registry : Registry
  pub manager : Manager
  pub members : List Member

abbrev pub new_site : Registry → Site
new_site registry = record { registry = registry; manager = no_requests; members = [] }

abbrev pub member_of : Session → Member
member_of s = record {
  active_request = s.active_request;
  request_id = s.request_id;
  phase = s.phase;
  sent = s.sent;
}

-- The session, with what it shares.
abbrev pub view : Site → Member → Session
view site x = record {
  registry = site.registry;
  manager = site.manager;
  active_request = x.active_request;
  request_id = x.request_id;
  phase = x.phase;
  sent = x.sent;
}

-- A connection that is accepted at this time; a completion for a session; a change of the registry by
-- another front door.
pub data Event : Type 0 where
  connected : ℕ → Event
  completion : ℕ → Completion → Event
  registry_changed : Registry → Event

-- `std::make_shared<Http1ProxySession>(std::move(socket))->start()`
unfoldable pub accept : ℕ → Site → Site
accept now site =
    let s = start (new_session now site.registry site.manager) in
    record site { manager = s.manager; members = site.members ++ member_of s ∷ [] }

abbrev pub with_session : ℕ → Session → Site → Site
with_session i s site = record {
  registry = s.registry;
  manager = s.manager;
  members = replace_at i (member_of s) site.members;
}

module _ (J : JsonLib) (order : Order) (prepare_payload : HttpMessage → HttpMessage) where
  -- There is no completion for a session that there is not.
  unfoldable pub complete_at : ℕ → Completion → Site → Site
  complete_at i c site = elim (member_at i site.members) [
    | none ↦ site
    | some x ↦ with_session i (on_completion J order prepare_payload x.phase c (view site x)) site
  ]

  unfoldable pub happen : Event → Site → Site
  unfolding complete_at accept
  happen (connected now) site = accept now site
  happen (completion i c) site = complete_at i c site
  happen (registry_changed r) site = record site { registry = r }

  unfoldable pub life : Site → List Event → Site
  unfolding happen
  life site [] = site
  life site (e ∷ es) = life (happen e site) es
