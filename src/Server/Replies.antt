-- ===== src/Server/Replies.antt =====
-- What is replied to a request that is forwarded (src/main.cpp, src/transport/proxy_handler.cpp and
-- http_client.cpp together).
use http2_server.Prelude.{
  ◌<◌, ◌≡◌, refl, sym, ap, ◌∙◌, Option, none, some, List, [], ◌∷◌, ◌++◌, map, true, false, ◌==◌,
  ◌||◌, length, append-nil, append_assoc, arith,
}
use http2_server.Prelude.Text.{Text, codes, text_eq, substr}
use http2_server.Prelude.Int.{ℤ, pos}
use http2_server.Common.{HttpResponse, http_response}
use http2_server.Json.{JsonLib}
use http2_server.Registry.{Order, ForwardingRule, find_backend}
use http2_server.HttpClient.{
  Refuses, Beast, Connection, Completion, Outcome, complete, send_request, resolving, received,
}
use http2_server.HttpClient.Chain.{send_request-some, run, first_error, run_outcome, failed_with}
use http2_server.World.{World, ResponseSender, Captured, Reply, lift, modify, ◌>>=◌}
use http2_server.ProxyHandler.{
  forward_request, forward_found, start_call, handle_proxy_request, network_event,
  request_failed_body,
}
use http2_server.ProxyHandler.Accounting.{send_request-new}
use http2_server.ProxyHandler.Relay.{reply_to, replies_to, network_event-latest}
use http2_server.Server.{Event, request, network, request_handler, on_event, serve}

-- The path is none that the server itself answers.
abbrev pub IsProxied : Text → Type 0
IsProxied path =
    (((path == codes "/test") || (path == codes "/proxy/register")) ≡ false)
    × ((substr path 15 == codes "/proxy/register") ≡ false)

-- The plain reading of a forwarded request: the status and the body of the backend's message, and
-- nothing else of it; or 502 if any operation failed.
abbrev pub relayed : Completion → Completion → Completion → Completion → HttpResponse
relayed c₁ c₂ c₃ c₄ =
    elim (first_error (
      (codes "Failed to resolve host: ", c₁)
      ∷ (codes "Failed to connect: ", c₂)
      ∷ (codes "Failed to write request: ", c₃)
      ∷ (codes "Failed to read response: ", c₄)
      ∷ [])) [
        | some error ↦ http_response (pos 502) request_failed_body
        | none ↦ http_response c₄.message.result_int c₄.message.body
      ]

module _ (beast : Beast) (host method path body : Text) (port : ℤ) (c : Captured) where
  not_started : beast.verb method ≡ none → send_request beast host port method path body c ≡ none
  unfolding send_request
  not_started h = rw (send_request, h) refl

  started :
      (verb : Text)
      → beast.verb method ≡ some verb
      → ¬ Refuses verb body
      → length host < 65534
      → (k : Connection Captured) × (send_request beast host port method path body c ≡ some k)
        × (k.phase ≡ resolving)
        × (k.callback ≡ c)
  started verb h allowed short =
      let (k, e) = send_request-some beast host method path body verb port c h allowed short in
      let (new, mine) = send_request-new beast host method path body port c k e in (k, e, new, mine)

outcome_reply :
    (c : Captured) (c₁ c₂ c₃ c₄ : Completion)
    → reply_to c
        (elim (first_error (
          (codes "Failed to resolve host: ", c₁)
          ∷ (codes "Failed to connect: ", c₂)
          ∷ (codes "Failed to write request: ", c₃)
          ∷ (codes "Failed to read response: ", c₄)
          ∷ [])) [ some error ↦ failed_with error | none ↦ received c₄.message ])
      ≡ record { sender = c.sender; stream_id = c.stream_id; response = relayed c₁ c₂ c₃ c₄ }
unfolding received codes
outcome_reply c c₁ c₂ c₃ c₄ = ground arith

-- Replies to one completion and to the later ones.
replies_to-later :
    (c : Captured) (o : Option Outcome) (later : List Outcome) (sent : List Reply)
    → (sent ++ replies_to c o) ++ map (reply_to c) later
      ≡ sent ++ map (reply_to c) (elim o [ none ↦ later | some x ↦ x ∷ later ])
replies_to-later c none later sent = ap (λ x. x ++ map (reply_to c) later) (append-nil sent)
replies_to-later c (some o) later sent = append_assoc sent (reply_to c o ∷ []) _

module _ (J : JsonLib) (beast : Beast) (order : Order) where
  -- Completions of the latest call, one after another.
  serve-latest :
      (cs : List Completion) (w : World) (ks : List (Connection Captured)) (k : Connection Captured)
      → serve J beast order (record w { calls = ks ++ k ∷ [] }) (map (network (length ks)) cs)
        ≡ some (record w {
          calls = ks ++ (run k cs).0 ∷ [];
          sent = w.sent ++ map (reply_to k.callback) (run k cs).1;
        })
  unfolding serve on_event run complete
  serve-latest [] w ks k =
      ap (λ x. some (record w { calls = ks ++ k ∷ []; sent = x })) (sym (append-nil w.sent))
  serve-latest (c ∷ cs) w ks k =
      let (next, o) = complete k c in
      rw (network_event-latest w ks k c) (
        serve-latest cs (record w { sent = w.sent ++ replies_to k.callback o }) ks next
        ∙ ap (λ x. some (record w { calls = ks ++ (run next cs).0 ∷ []; sent = x }))
            (replies_to-later k.callback o (run next cs).1 w.sent))

  -- A request that is to be forwarded starts one call, in its first phase.
  proxied :
      (method path body : Text) (i : ℤ) (s : ResponseSender) (w : World) (rule : ForwardingRule)
      → w.initialized ≡ true
      → IsProxied path
      → find_backend order w.registry path ≡ some rule
      → request_handler J beast order method path body i s w
        ≡ (lift (
                send_request beast rule.target_host rule.target_port method path body
                  (record { sender = s; stream_id = i }))
              >>= start_call J beast order)
            w
  unfolding request_handler handle_proxy_request forward_request forward_found ◌>>=◌
  proxied method path body i s w rule ready p found = ground arith

  -- The server is running, the path is one that it proxies, a backend is found for it, and the method
  -- is no verb of Boost.Beast: an exception escapes, whatever would come next.
  pub unknown_verb_escapes :
      (method path body : Text) (i : ℤ) (s : ResponseSender) (w : World) (rule : ForwardingRule)
      (es : List Event)
      → w.initialized ≡ true
      → IsProxied path
      → find_backend order w.registry path ≡ some rule
      → beast.verb method ≡ none
      → serve J beast order w (request method path body i s ∷ es) ≡ none
  unfolding serve on_event ◌>>=◌ lift
  unknown_verb_escapes method path body i s w rule es ready p found v =
      let refused =
        not_started beast rule.target_host method path body rule.target_port
          (record { sender = s; stream_id = i }) v in
      rw (proxied method path body i s w rule ready p found, refused) refl

  -- The server is running, the path is one that it proxies, a backend is found for it, the method is a
  -- verb, and not TRACE if there is a body, the backend's host is shorter than 65534 bytes, and then
  -- the four operations of the call complete: one
  -- reply more has been sent, to the stream that asked, and it is the one of the plain reading.
  pub forwarded :
      (method path body : Text) (i : ℤ) (s : ResponseSender) (w : World) (rule : ForwardingRule)
      (verb : Text) (c₁ c₂ c₃ c₄ : Completion)
      → w.initialized ≡ true
      → IsProxied path
      → find_backend order w.registry path ≡ some rule
      → beast.verb method ≡ some verb
      → ¬ Refuses verb body
      → length rule.target_host < 65534
      → (v : World) × (serve J beast order w
            (request method path body i s ∷ map (network (length w.calls)) (c₁ ∷ c₂ ∷ c₃ ∷ c₄ ∷ []))
          ≡ some v)
        × (v.sent
            ≡ w.sent ++ record { sender = s; stream_id = i; response = relayed c₁ c₂ c₃ c₄ } ∷ [])
        × (v.registry ≡ w.registry)
  unfolding serve on_event ◌>>=◌ lift start_call modify network_event
  forwarded method path body i s w rule verb c₁ c₂ c₃ c₄ ready p found e allowed short =
      let (k, begun, new, callback) =
        started beast rule.target_host method path body rule.target_port
          (record { sender = s; stream_id = i }) verb e allowed short in
      let cs = c₁ ∷ c₂ ∷ c₃ ∷ c₄ ∷ [] in
      (
        record w {
          calls = w.calls ++ (run k cs).0 ∷ [];
          sent = w.sent ++ map (reply_to k.callback) (run k cs).1;
        },
        rw (proxied method path body i s w rule ready p found, begun) (serve-latest cs w w.calls k),
        ap (λ x. w.sent ++ x)
            (rw (run_outcome k c₁ c₂ c₃ c₄ [] new, callback)
              (ap (λ x. x ∷ [])
                (outcome_reply (record { sender = s; stream_id = i }) c₁ c₂ c₃ c₄))),
        refl,
      )
