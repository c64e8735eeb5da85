-- ===== src/Listener/Accepting.antt =====
-- Which connections the two listeners (src/core/server.cpp and src/transport/http1_proxy.cpp) accept.
use mathlib.Core.Option
use http2_server.Prelude.{
  Bool-cases, inl, inr, subst, ◌≡◌, refl, sym, ap, ◌∙◌, Option, none, some, List, [], ◌∷◌, ◌++◌,
  Bool, true, false, if◌then◌else◌, append_assoc, append-nil, arith,
}
use http2_server.Prelude.Text.{Text}
use http2_server.Listener.{
  Acceptor, new_acceptor, SslContext, Loads, Started, tls_session, plain_session, Server,
  setup_ssl_context, plain_server, tls_server, set_request_handler, accept_connection, start_server,
  new_session, on_connection, ServerEvent, accept_ended, handler_set, on_event, run_server,
  ProxySession, proxy_session, accept_connections, start_proxy, on_proxy_connection, run_proxy,
}

-- One accept is under way, and these sessions have been started.
abbrev pub listening : {S : Type 0} → List S → Acceptor S
listening sessions = record { accepting = 1; sessions = sessions }

-- A session for each accept that did not fail.
abbrev pub one_each : List (Option Text) → List ProxySession
one_each [] = []
one_each (none ∷ ecs) = proxy_session ∷ one_each ecs
one_each (some message ∷ ecs) = one_each ecs

run_proxy-listening :
    (sessions : List ProxySession) (ecs : List (Option Text))
    → run_proxy (listening sessions) ecs ≡ listening (sessions ++ one_each ecs)
unfolding run_proxy on_proxy_connection accept_connections
run_proxy-listening sessions [] = ap listening (sym (append-nil sessions))
run_proxy-listening sessions (none ∷ ecs) =
    run_proxy-listening _ ecs ∙ ap listening (append_assoc sessions _ _)
run_proxy-listening sessions (some message ∷ ecs) = run_proxy-listening sessions ecs

-- However many accepts of the proxy complete, and whichever of them fail: it has exactly one accept
-- under way, and has started one session for each that did not fail.
proxy_goes_on :
    (ecs : List (Option Text)) → run_proxy (start_proxy new_acceptor) ecs ≡ listening (one_each ecs)
unfolding start_proxy accept_connections
proxy_goes_on ecs = run_proxy-listening [] ecs

abbrev pub has_context : Option SslContext → Bool
has_context none = false
has_context (some context) = true

module _ {H : Type 0} where
  -- The session with this context, or without one, and with this handler.
  abbrev pub session_with : Option SslContext → Option H → Started H
  session_with none handler = plain_session handler
  session_with (some context) handler = tls_session context handler

  -- The plain reading of the events: for each accept that did not fail a session, with the handler that
  -- was set last before it.
  abbrev pub sessions_of : Option SslContext → Option H → List (ServerEvent H) → List (Started H)
  sessions_of context handler [] = []
  sessions_of context handler (accept_ended none ∷ es) =
      session_with context handler ∷ sessions_of context handler es
  sessions_of context handler (accept_ended (some message) ∷ es) = sessions_of context handler es
  sessions_of context handler (handler_set h ∷ es) = sessions_of context (some h) es

  abbrev pub last_handler : Option H → List (ServerEvent H) → Option H
  last_handler handler [] = handler
  last_handler handler (accept_ended ec ∷ es) = last_handler handler es
  last_handler handler (handler_set h ∷ es) = last_handler (some h) es

  -- The server with TLS exactly if it has a context.
  abbrev pub serving : Option SslContext → Option H → List (Started H) → Server H
  serving context handler sessions = record {
    acceptor = listening sessions;
    request_handler = handler;
    ssl_context = context;
    use_ssl = has_context context;
  }

  accepted :
      (context : Option SslContext) (handler : Option H) (sessions : List (Started H))
      → on_event (accept_ended none) (serving context handler sessions)
        ≡ some (serving context handler (sessions ++ session_with context handler ∷ []))
  unfolding on_event on_connection new_session accept_connection
  accepted none handler sessions = refl
  accepted (some context) handler sessions = refl

  run_server-serving :
      (context : Option SslContext) (handler : Option H) (sessions : List (Started H))
      (es : List (ServerEvent H))
      → run_server (serving context handler sessions) es
        ≡ some
            (serving context (last_handler handler es) (sessions ++ sessions_of context handler es))
  unfolding run_server
  run_server-serving context handler sessions [] =
      ap (λ x. some (serving context handler x)) (sym (append-nil sessions))
  run_server-serving context handler sessions (accept_ended none ∷ es) =
      rw (run_server, accepted context handler sessions)
        (run_server-serving context handler (sessions ++ session_with context handler ∷ []) es
          ∙ ap (λ x. some (serving context (last_handler handler es) x))
              (append_assoc sessions _ _))
  run_server-serving context handler sessions (accept_ended (some message) ∷ es) =
      unfold on_event in
      (unfold on_connection in
        (unfold accept_connection in run_server-serving context handler sessions es))
  run_server-serving context handler sessions (handler_set h ∷ es) =
      unfold on_event in
      (unfold set_request_handler in run_server-serving context (some h) sessions es)

  -- A server that has not been started.
  abbrev idle : Option SslContext → Server H
  idle context = record {
    acceptor = new_acceptor;
    request_handler = none;
    ssl_context = context;
    use_ssl = has_context context;
  }

  made-idle :
      (loads : Loads) (cert_file key_file : Text) (made : Server H) (use_ssl : Bool)
      → (if use_ssl then tls_server loads cert_file key_file else some plain_server) ≡ some made
      → (context : Option SslContext) × (idle context ≡ made) × (has_context context ≡ use_ssl)
  unfolding tls_server setup_ssl_context plain_server
  made-idle loads cert_file key_file made true h = elim (Bool-cases (loads cert_file key_file)) [
    | inl e ↦ (_, Option.some-injective _ _ (rw e at h), refl)
    | inr e ↦ absurd (ground arith)
  ]
  made-idle loads cert_file key_file made false h = (none, Option.some-injective _ _ h, refl)

  -- A server that has been made, with or without TLS, and started: whatever accepts end and whatever
  -- handlers are set, it never uses a context that is not there, it has exactly one accept under way,
  -- and it has started one session for each accept that did not fail, with TLS exactly if it was made
  -- with a certificate, and with the handler that was set last before the accept.
  pub server_goes_on :
      (loads : Loads) (cert_file key_file : Text) (made : Server H) (use_ssl : Bool)
      (es : List (ServerEvent H))
      → (if use_ssl then tls_server loads cert_file key_file else some plain_server) ≡ some made
      → (run_server (start_server made) es
          ≡ some (
              serving made.ssl_context
                (last_handler none es)
                (sessions_of made.ssl_context none es)))
        × (has_context made.ssl_context ≡ use_ssl)
  unfolding start_server accept_connection
  server_goes_on loads cert_file key_file made use_ssl es h =
      let (context, same, secure) = made-idle loads cert_file key_file made use_ssl h in
      subst
        (λ (s : Server H).
          (run_server (start_server s) es
            ≡ some
                (serving s.ssl_context (last_handler none es) (sessions_of s.ssl_context none es)))
          × (has_context s.ssl_context ≡ use_ssl))
        same (run_server-serving context none [] es, secure)
