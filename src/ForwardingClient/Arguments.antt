-- ===== src/ForwardingClient/Arguments.antt =====
-- The arguments of the forwarding client and its life (src/examples/forwarding_main.cpp).
pub mod Options
pub mod Waiting
use http2_server.Prelude.{
  ℕ, Option, none, some, List, [], ◌∷◌, Bool, true, false, if◌then◌else◌, ◌==◌, ◌||◌, nat_beq,
}
use http2_server.Prelude.Text.{Text, codes, text_eq}
use http2_server.Prelude.Int.{ℤ, pos}
use http2_server.Prelude.Decimal.{stoi}
use http2_server.Json.{JsonLib}
use http2_server.HttpClient.{Beast}
use http2_server.ForwardingClient.{
  RegistrationProtocol, http1_only, http2_only, both, TunnelConfig, tunnel_config, Forwarder,
  new_forwarder, start_tunnel,
}

-- How the loop over the arguments ends: with a configuration, with a return, or with an exception of
-- `std::stoi`.
pub data Parsed : Type 0 where
  configured : TunnelConfig → Parsed
  helped : Parsed
  invalid_protocol : Text → Parsed
  unknown_option : Text → Parsed
  not_a_number : Parsed

-- One turn of the loop: it ends it, or it goes on behind the argument or behind the one after it.
pub data Turn : Type 0 where
  ended : Parsed → Turn
  behind_it : TunnelConfig → Turn
  behind_value : TunnelConfig → Turn

unfoldable pub protocol_of : Text → Option RegistrationProtocol
protocol_of proto =
    if proto == codes "http1"
    then some http1_only
    else if proto == codes "http2"
    then some http2_only
    else if proto == codes "both"
    then some both
    else none

-- `arg[0] == '-'`
unfoldable pub starts_dash : Text → Bool
starts_dash [] = false
starts_dash (c ∷ s) = nat_beq c b'-'

-- The last two branches.
unfoldable pub plain_argument : TunnelConfig → Text → Turn
unfolding starts_dash
plain_argument config arg =
    if starts_dash arg then ended (unknown_option arg) else elim (stoi arg) [
      | none ↦ ended not_a_number
      | some port ↦ behind_it (record config { local_port = port })
    ]

unfoldable pub set_proxy_port : TunnelConfig → Option ℤ → Turn
set_proxy_port config none = ended not_a_number
set_proxy_port config (some port) = behind_value (record config { proxy_port = port })

unfoldable pub set_protocol : TunnelConfig → Text → Option RegistrationProtocol → Turn
set_protocol config proto none = ended (invalid_protocol proto)
set_protocol config proto (some p) = behind_value (record config { protocol = p })

-- The branches of an argument that another one follows.
unfoldable pub argument_with_value : TunnelConfig → Text → Text → Turn
argument_with_value config arg value =
    if arg == codes "--host"
    then behind_value (record config { local_host = value })
    else if arg == codes "--proxy"
    then behind_value (record config { proxy_host = value })
    else if arg == codes "--proxy-port"
    then set_proxy_port config (stoi value)
    else if arg == codes "--path"
    then behind_value (record config { path_pattern = value })
    else if arg == codes "--protocol"
    then set_protocol config value (protocol_of value)
    else plain_argument config arg

-- The argument, and the next one if there is one.
unfoldable pub turn : TunnelConfig → Text → Option Text → Turn
turn config arg next =
    if (arg == codes "-h") || (arg == codes "--help") then ended helped else elim next [
      | none ↦ plain_argument config arg
      | some value ↦ argument_with_value config arg value
    ]

unfoldable pub parse_arguments : TunnelConfig → List Text → Parsed
unfolding turn
parse_arguments config [] = configured config
parse_arguments config (arg ∷ []) = elim (turn config arg none) [
  | ended result ↦ result
  | behind_it next ↦ configured next
  | behind_value next ↦ configured next
]
parse_arguments config (arg ∷ value ∷ rest) = elim (turn config arg (some value)) [
  | ended result ↦ result
  | behind_it next ↦ parse_arguments next (value ∷ rest)
  | behind_value next ↦ parse_arguments next rest
]

-- `main` returns, or it waits in its loop for as long as the tunnel is active.
pub data Life : Type 0 where
  returned : ℤ → Life
  waits : Forwarder → Life

module _ (J : JsonLib) (beast : Beast) where
  -- An exception is caught, and ends `main` with 1.
  unfoldable pub run_tunnel : TunnelConfig → Life
  run_tunnel config =
      let left = start_tunnel J beast config new_forwarder in
      if left.1 then waits left.0 else returned (pos 1)

  unfoldable pub main : ℤ → List Text → Life
  unfolding parse_arguments run_tunnel
  main drawn arguments = elim (parse_arguments (tunnel_config drawn) arguments) [
    | configured config ↦ run_tunnel config
    | helped ↦ returned (pos 0)
    | invalid_protocol proto ↦ returned (pos 1)
    | unknown_option arg ↦ returned (pos 1)
    | not_a_number ↦ returned (pos 1)
  ]
