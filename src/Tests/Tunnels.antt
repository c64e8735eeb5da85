-- ===== src/Tests/Tunnels.antt =====
-- A tunnel (src/examples) at a concrete configuration.
use mathlib.Core.Option
use http2_server.Prelude.{
  ◌≡◌, ◌≢◌, refl, Option, none, some, List, [], ◌∷◌, true, false, ◌==◌, if◌then◌else◌, arith,
}
use http2_server.Prelude.Text.{Text, codes, text_eq}
use http2_server.Prelude.Int.{pos, negsuc}
use http2_server.Prelude.Map.{lookup}
use http2_server.HttpClient.{Connection, Beast, send_request, finished}
use http2_server.ProxyClient.{Purpose, registration, unregistration}
use http2_server.ProxyHandler.{handle_registration_request}
use http2_server.Server.{initial}
use http2_server.ProxyHandler.{initialize}
use http2_server.ForwardingClient.{
  TunnelConfig, tunnel_config, http1_only, both, Captured, Forwarder, new_forwarder,
  registration_data, unregistration_data, start_tunnel, stop_tunnel, destroy,
}
use http2_server.ForwardingClient.Tunnel.{asked, over_http2, stop_tunnel-start_tunnel}
use http2_server.ForwardingClient.Uses.{start, stop, live, live_defined}
use http2_server.ForwardingClient.EndToEnd.{rule_of, tunnel_arrives}
use http2_server.ForwardingClient.Arguments.{main, waits, parse_arguments}
use http2_server.ForwardingClient.Arguments.Options.{
  Choice, host, port, path, protocol, proxy_port, all_written, choose_all,
  parse_arguments-all_written,
}
use http2_server.ForwardingClient.Arguments.Waiting.{main_waits}
use http2_server.Tests.Samples.{json, json_laws, order, never_refused}

abbrev config : TunnelConfig
config = record {
  local_host = codes "l";
  local_port = pos 3000;
  proxy_host = codes "p";
  proxy_port = pos 1;
  path_pattern = codes "/a";
  tunnel_id = codes "t";
  protocol = both;
}

-- A library that sends every method.
abbrev any_verb : Beast
any_verb = record {
  verb = λ m. some m;
  fits = λ t. true;
  fits-true = λ t h. refl;
  prepare_payload = λ r. some r;
  prepare_payload-none = never_refused;
}

abbrev body_of : TunnelConfig → Text
body_of c = Option.get_or (json.dump (json.object (registration_data json any_verb c))) []

abbrev last_body_of : TunnelConfig → Text
last_body_of c = Option.get_or (json.dump (json.object (unregistration_data json any_verb c))) []

-- What is asked of the HTTP/1.1 client.
abbrev asking : Text → Text → Purpose → Text → Option (Connection Captured)
asking address method purpose body =
    send_request any_verb address (pos 9080) method (codes "/proxy/register") body
      (record { purpose = purpose; port = pos 9080 })

abbrev call_of : Text → Text → Purpose → Text → Connection Captured
call_of address method purpose body = Option.get_or (asking address method purpose body) (record {
  host = [];
  service = [];
  request = record { version = 11; method = []; target = []; fields = []; body = [] };
  phase = finished;
  callback = record { purpose = purpose; port = pos 0 };
})

asking-call_of :
    (address method body : Text) (purpose : Purpose)
    → asking address method purpose body ≡ some (call_of address method purpose body)
unfolding send_request
asking-call_of address method body purpose = refl

abbrev post : Connection Captured
post = call_of (codes "p") (codes "POST") registration (body_of config)

abbrev delete : Connection Captured
delete = call_of (codes "p") (codes "DELETE") unregistration (last_body_of config)

stop_tunnel-start_tunnel_example :
    (opened closed : Forwarder) × (start_tunnel json any_verb config new_forwarder ≡ (opened, true))
    × (stop_tunnel json any_verb opened ≡ some (closed, true))
    × (stop_tunnel json any_verb closed ≡ some (closed, true))
    × (opened
        ≡ record (asked both
            (codes "p")
            post
            (over_http2 (codes "POST") registration (body_of config))
            new_forwarder) { active_tunnel = some config; is_tunnel_active = true })
    × (closed
        ≡ record (asked both
            (codes "p")
            delete
            (over_http2 (codes "DELETE") unregistration (last_body_of config))
            opened) { is_tunnel_active = false })
stop_tunnel-start_tunnel_example =
    stop_tunnel-start_tunnel json any_verb config (body_of config) (last_body_of config) post delete
      new_forwarder refl refl
      (asking-call_of (codes "p") (codes "POST") (body_of config) registration)
      (asking-call_of (codes "p") (codes "DELETE") (last_body_of config) unregistration)

live_defined_example :
    (live json any_verb new_forwarder (stop ∷ stop ∷ start config ∷ []) ≡ none)
    × (g : Forwarder) × (live json any_verb new_forwarder (start config ∷ stop ∷ start config ∷ [])
        ≡ some g)
    × (destroy json any_verb g ≢ none)
live_defined_example = live_defined json any_verb config (stop ∷ start config ∷ [])

tunnel_arrives_example :
    (lookup
        (codes "t")
        (handle_registration_request json any_verb order
          (codes "POST")
          (codes "/proxy/register")
          (body_of config)
          (pos 1)
          7
          initial).1.registry.backends
      ≡ (if codes "t" == codes "t"
          then some (rule_of config)
          else lookup (codes "t") initial.registry.backends))
    × (lookup
          (codes "t")
          (handle_registration_request json any_verb order
            (codes "DELETE")
            (codes "/proxy/register")
            (last_body_of config)
            (pos 3)
            8
            initial).1.registry.backends
        ≡ (if codes "t" == codes "t" then none else lookup (codes "t") initial.registry.backends))
tunnel_arrives_example =
    tunnel_arrives json json_laws any_verb order config (codes "/proxy/register")
      (codes "/proxy/register") (body_of config) (last_body_of config) (pos 1) (pos 3) 7 8 initial
      initial (codes "t") refl refl
      (record { distinct = unfold initialize in tt; keyed = unfold initialize in tt })

abbrev choices : List Choice
choices =
    host (codes "l")
    ∷ protocol http1_only
    ∷ port 3000
    ∷ proxy_port (negsuc 0)
    ∷ path (codes "/a")
    ∷ []

parse_arguments-all_written_example :
    parse_arguments config (all_written choices (codes "-h" ∷ []))
    ≡ parse_arguments (choose_all choices config) (codes "-h" ∷ [])
parse_arguments-all_written_example =
    parse_arguments-all_written choices config (codes "-h" ∷ [])
      (tt, (tt, (omega arith, (omega arith, (tt, tt)))))

abbrev chosen : TunnelConfig
chosen = choose_all choices (tunnel_config (pos 1234))

abbrev chosen_post : Connection Captured
chosen_post = call_of chosen.proxy_host (codes "POST") registration (body_of chosen)

main_waits_example :
    main json any_verb (pos 1234) (all_written choices [])
    ≡ waits
        (record (asked chosen.protocol chosen.proxy_host chosen_post
          (over_http2 (codes "POST") registration (body_of chosen))
          new_forwarder) { active_tunnel = some chosen; is_tunnel_active = true })
main_waits_example =
    main_waits json any_verb (pos 1234) choices chosen (body_of chosen) chosen_post
      (tt, (tt, (omega arith, (omega arith, (tt, tt))))) refl refl
      (asking-call_of chosen.proxy_host (codes "POST") (body_of chosen) registration)
