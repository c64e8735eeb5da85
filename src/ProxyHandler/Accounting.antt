-- ===== src/ProxyHandler/Accounting.antt =====
-- How often the proxy's handlers (src/transport/proxy_handler.cpp) answer a request.
use http2_server.Prelude.{length, ◌<◌, ◌≡◌, Option, none, some, [], ◌∷◌, arith, nat_eq}
use http2_server.Prelude.Text.{Text, text_eq}
use http2_server.Prelude.Int.{ℤ, int_eq, pos}
use http2_server.Common.{http_response}
use http2_server.Json.{JsonLib}
use http2_server.Registry.{Order, ForwardingRule, find_backend}
use http2_server.HttpClient.{Refuses, Beast, Connection, send_request, resolving}
use http2_server.HttpClient.Chain.{send_request-some}
use http2_server.World.{World, ResponseSender, Captured, modify, ◌>>=◌}
use http2_server.World.Answers.{
  Quiet-modify, Counts, Counts-bind-lift, Counts-respond, Total, counts_rules, pending_for,
  pending_for-append, Total-try, Total-respond,
}
use http2_server.ProxyHandler.{
  forward_request, forward_found, start_call, post_registration, delete_registration,
  not_initialized_body, registration_request, handle_registration_request, handle_proxy_request,
}

-- A started call is new, and remembers whom it answers.
pub send_request-new :
    (beast : Beast) (host method path body : Text) (port : ℤ) (c : Captured)
    (k : Connection Captured)
    → send_request beast host port method path body c ≡ some k
    → (k.phase ≡ resolving) × (k.callback ≡ c)
unfolding send_request
send_request-new beast host method path body port c k h = ground arith

-- The method is a verb, and not TRACE if there is a body, and the host fits a header field.
abbrev pub IsSendable : Beast → Text → Text → Text → Type 0
IsSendable beast host method body =
    (verb : Text) × (beast.verb method ≡ some verb) × (¬ Refuses verb body) × (length host < 65534)

-- If a backend is found, the request can be sent to it.
abbrev pub IsRelayable : Beast → Text → Text → Option ForwardingRule → Type 0
IsRelayable beast method body none = Unit
IsRelayable beast method body (some rule) = IsSendable beast rule.target_host method body

module _ (J : JsonLib) (beast : Beast) (order : Order) (s : ResponseSender) (i : ℤ) where
  start_call-Counts :
      (k : Connection Captured)
      → k.phase ≡ resolving
      → k.callback ≡ record { sender = s; stream_id = i }
      → Counts s i (start_call J beast order k)
  unfolding start_call modify pending_for
  start_call-Counts k e f = record {
    counted = λ w t j. ground (arith, pending_for-append t j w.calls (k ∷ []));
  }

  forward_found-Counts :
      (method path body : Text) (found : Option ForwardingRule)
      → Counts s i (forward_found J beast order method path body i s found)
  unfolding forward_found
  forward_found-Counts method path body none = Counts-respond s i _
  forward_found-Counts method path body (some rule) =
      Counts-bind-lift s i _ _
        λ k e. let (new, mine) = send_request-new _ _ _ _ _ _ _ _ e in start_call-Counts k new mine

  forward_request-Counts :
      (method path body : Text) → Counts s i (forward_request J beast order method path body i s)
  unfolding forward_request
  forward_request-Counts method path body =
      search (counts_rules, forward_found-Counts method path body)

  post_registration-Counts : (j : J.Value) → Counts s i (post_registration J beast order j i s)
  unfolding post_registration
  post_registration-Counts j = search (counts_rules, Quiet-modify) depth 20

  delete_registration-Counts : (j : J.Value) → Counts s i (delete_registration J beast order j i s)
  unfolding delete_registration
  delete_registration-Counts j = search (counts_rules, Quiet-modify) depth 20

  registration_request-Counts :
      (method body : Text) → Counts s i (registration_request J beast order method body i s)
  unfolding registration_request
  registration_request-Counts method body =
      search (counts_rules, post_registration-Counts, delete_registration-Counts) depth 8

  pub handle_registration_request-Counts :
      (method path body : Text)
      → Counts s i (handle_registration_request J beast order method path body i s)
  unfolding handle_registration_request
  handle_registration_request-Counts method path body =
      search (counts_rules, registration_request-Counts)

  handle_registration_request-Total :
      (method path body : Text)
      → Total (handle_registration_request J beast order method path body i s)
  unfolding handle_registration_request
  handle_registration_request-Total method path body = Total-try _ _ (Total-respond s i _)

  pub handle_proxy_request-Counts :
      (method path body : Text)
      → Counts s i (handle_proxy_request J beast order method path body i s)
  unfolding handle_proxy_request
  handle_proxy_request-Counts method path body =
      search (counts_rules, handle_registration_request-Counts, forward_request-Counts) depth 8

  forward_found-Total :
      (method path body : Text) (found : Option ForwardingRule)
      → IsRelayable beast method body found
      → Total (forward_found J beast order method path body i s found)
  unfolding forward_found ◌>>=◌ start_call
  forward_found-Total method path body none h = Total-respond s i _
  forward_found-Total method path body (some rule) h = record {
    returns = λ w.
        let (v, known, allowed, short) = h in
        let (k, e) =
          send_request-some {C = Captured} beast rule.target_host method path body v
            rule.target_port (record { sender = s; stream_id = i }) known allowed short in
        ground (arith, e);
  }

  -- A request that can be sent leaves nothing that `handle_proxy_request` could throw.
  pub handle_proxy_request-returns :
      (method path body : Text) (w : World)
      → IsRelayable beast method body (find_backend order w.registry path)
      → (handle_proxy_request J beast order method path body i s w).0 ≡ some tt
  unfolding handle_proxy_request ◌>>=◌ forward_request
  handle_proxy_request-returns method path body w h = ground (
    arith,
    (handle_registration_request-Total method path body).returns w,
    (Total-respond s i (http_response (pos 500) not_initialized_body)).returns w,
    (forward_found-Total method path body (find_backend order w.registry path) h).returns w,
  )
