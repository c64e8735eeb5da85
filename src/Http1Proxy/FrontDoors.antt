-- ===== src/Http1Proxy/FrontDoors.antt =====
-- Registration over HTTP/1.1 (src/transport/http1_proxy.cpp) beside registration over HTTP/2
-- (src/transport/proxy_handler.cpp).
use http2_server.Prelude.{
  ◌≡◌, refl, ap, ◌∙◌, sym, Option, none, some, ◌==◌, ◌||◌, true, false, arith,
}
use http2_server.Prelude.Text.{Text, codes, text_eq, text_beq}
use http2_server.Prelude.Int.{ℤ}
use http2_server.Json.{JsonLib}
use http2_server.Registry.{Order}
use http2_server.HttpClient.{Beast, HttpMessage}
use http2_server.World.{World, ResponseSender, respond}
use http2_server.ProxyHandler.{handle_registration_request}
use http2_server.ProxyHandler.Registration.{
  registered, posted, deleted, handle_registration_request_lem,
}
use http2_server.Http1Proxy.{
  Session, register_directly, conclude, send_response, write_response, registration, unregistration,
}

post_ne_delete : (codes "DELETE" == codes "POST") ≡ false
unfolding codes text_beq
post_ne_delete = refl

module _ (J : JsonLib) (beast : Beast) (order : Order)
    (prepare_payload : HttpMessage → HttpMessage) where
  registry-register_directly :
      (method : Text) (j : Option J.Value) (s : Session)
      → ((method == codes "POST") || (method == codes "DELETE")) ≡ true
      → (register_directly J order prepare_payload method j s).registry
        ≡ (registered J beast order method j s.registry).0
  unfolding register_directly conclude send_response write_response registration unregistration
      registered posted deleted
  registry-register_directly method none s h = refl
  registry-register_directly method (some j) s h = ground arith

  -- For a POST or a DELETE, whatever the body: the session of the proxy for HTTP/1.1 leaves the
  -- registry that the handler for HTTP/2 leaves when it starts from the same registry.
  pub register_directly-same_registry :
      (method path body : Text) (i : ℤ) (sender : ResponseSender) (w : World) (s : Session)
      → ((method == codes "POST") || (method == codes "DELETE")) ≡ true
      → s.registry ≡ w.registry
      → (register_directly J order prepare_payload method (J.parse body) s).registry
        ≡ (handle_registration_request J beast order method path body i sender w).1.registry
  register_directly-same_registry method path body i sender w s h e =
      registry-register_directly method (J.parse body) s h
      ∙ ap (λ r. (registered J beast order method (J.parse body) r).0) e
      ∙ sym (
          ap (λ (o : Option (Unit {0}) × World). o.1.registry)
            (handle_registration_request_lem J beast order method path body i sender w)
          ∙ (unfold respond in refl))
