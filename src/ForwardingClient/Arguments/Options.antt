-- ===== src/ForwardingClient/Arguments/Options.antt =====
-- What the forwarding client (src/examples/forwarding_main.cpp) makes of its options.
use http2_server.Prelude.{
  ℕ, ◌<◌, ◌^◌, ◌≡◌, refl, ap, ◌∙◌, Option, none, some, List, [], ◌∷◌, ◌++◌, true, All, arith,
}
use http2_server.Prelude.Text.{Text, codes, text_eq, text_beq}
use http2_server.Prelude.Int.{ℤ, pos}
use http2_server.Prelude.Decimal.{
  to_string, size_to_string, stoi, InIntRange, stoi-to_string, begins_digit,
  begins_digit-size_to_string,
}
use http2_server.ForwardingClient.{RegistrationProtocol, http1_only, http2_only, both, TunnelConfig}
use http2_server.ForwardingClient.Arguments.{
  behind_it, behind_value, starts_dash, plain_argument, argument_with_value, set_proxy_port,
  set_protocol, protocol_of, turn, parse_arguments,
}

-- A choice that the user can make.
pub data Choice : Type 0 where
  host proxy path : Text → Choice
  proxy_port : ℤ → Choice
  protocol : RegistrationProtocol → Choice
  port : ℕ → Choice

abbrev pub protocol_name : RegistrationProtocol → Text
protocol_name http1_only = codes "http1"
protocol_name http2_only = codes "http2"
protocol_name both = codes "both"

-- How the choice is written.
abbrev pub written : Choice → List Text
written (host t) = codes "--host" ∷ t ∷ []
written (proxy t) = codes "--proxy" ∷ t ∷ []
written (path t) = codes "--path" ∷ t ∷ []
written (proxy_port n) = codes "--proxy-port" ∷ to_string n ∷ []
written (protocol p) = codes "--protocol" ∷ protocol_name p ∷ []
written (port n) = to_string (pos n) ∷ []

abbrev pub all_written : List Choice → List Text → List Text
all_written [] rest = rest
all_written (x ∷ xs) rest = written x ++ all_written xs rest

-- What the choice means.
abbrev pub choose : Choice → TunnelConfig → TunnelConfig
choose (host t) c = record c { local_host = t }
choose (proxy t) c = record c { proxy_host = t }
choose (path t) c = record c { path_pattern = t }
choose (proxy_port n) c = record c { proxy_port = n }
choose (protocol p) c = record c { protocol = p }
choose (port n) c = record c { local_port = pos n }

abbrev pub choose_all : List Choice → TunnelConfig → TunnelConfig
choose_all [] c = c
choose_all (x ∷ xs) c = choose_all xs (choose x c)

-- The numbers are values of `int`.
abbrev pub IsSmall : Choice → Type 0
IsSmall (proxy_port n) = InIntRange n
IsSmall (port n) = InIntRange (pos n)
IsSmall _ = Unit

-- An argument that begins with a digit is no option.
turn-digit :
    (c : TunnelConfig) (arg : Text) (next : Option Text)
    → begins_digit arg ≡ true
    → turn c arg next ≡ plain_argument c arg
unfolding turn argument_with_value begins_digit codes text_beq
turn-digit c [] next h = cc
turn-digit c (x ∷ arg) none h = ground arith
turn-digit c (x ∷ arg) (some value) h = ground arith

plain_argument-digit :
    (c : TunnelConfig) (arg : Text) (n : ℤ)
    → begins_digit arg ≡ true
    → stoi arg ≡ some n
    → plain_argument c arg ≡ behind_it (record c { local_port = n })
unfolding plain_argument begins_digit starts_dash
plain_argument-digit c [] n h e = cc
plain_argument-digit c (x ∷ arg) n h e = ground (arith, e)

turn-port :
    (n : ℕ) (c : TunnelConfig) (next : Option Text)
    → n < 2 ^ 31
    → turn c (to_string (pos n)) next ≡ behind_it (record c { local_port = pos n })
unfolding to_string
turn-port n c next h =
    let digit = begins_digit-size_to_string n in
    turn-digit c (size_to_string n) next digit
    ∙ plain_argument-digit c (size_to_string n) (pos n) digit (stoi-to_string (pos n) h)

parse_arguments-behind_it :
    (c d : TunnelConfig) (arg : Text) (rest : List Text)
    → ((next : Option Text) → turn c arg next ≡ behind_it d)
    → parse_arguments c (arg ∷ rest) ≡ parse_arguments d rest
unfolding parse_arguments
parse_arguments-behind_it c d arg [] h = rw (parse_arguments, h none) refl
parse_arguments-behind_it c d arg (value ∷ rest) h = rw (parse_arguments, h (some value)) refl

parse_arguments-behind_value :
    (c d : TunnelConfig) (arg value : Text) (rest : List Text)
    → turn c arg (some value) ≡ behind_value d
    → parse_arguments c (arg ∷ value ∷ rest) ≡ parse_arguments d rest
unfolding parse_arguments
parse_arguments-behind_value c d arg value rest h = rw (parse_arguments, h) refl

turn-proxy_port :
    (n : ℤ) (c : TunnelConfig)
    → InIntRange n
    → turn c (codes "--proxy-port") (some (to_string n))
      ≡ behind_value (record c { proxy_port = n })
unfolding turn argument_with_value set_proxy_port codes text_beq
turn-proxy_port n c h = ap (set_proxy_port c) (stoi-to_string n h)

parse_arguments-written :
    (x : Choice) (c : TunnelConfig) (rest : List Text)
    → IsSmall x
    → parse_arguments c (written x ++ rest) ≡ parse_arguments (choose x c) rest
unfolding parse_arguments turn argument_with_value set_protocol protocol_of codes text_beq
parse_arguments-written (host t) c rest h = refl
parse_arguments-written (proxy t) c rest h = refl
parse_arguments-written (path t) c rest h = refl
parse_arguments-written (proxy_port n) c rest h =
    parse_arguments-behind_value c _ (codes "--proxy-port") (to_string n) rest
      (turn-proxy_port n c h)
parse_arguments-written (protocol http1_only) c rest h = refl
parse_arguments-written (protocol http2_only) c rest h = refl
parse_arguments-written (protocol both) c rest h = refl
parse_arguments-written (port n) c rest h =
    parse_arguments-behind_it c _ (to_string (pos n)) rest (λ next. turn-port n c next h)

-- Any choices, in any order and however often, if each number fits an `int` and the local port is not
-- negative: written as arguments, they are read back as what they mean, one after another, and the
-- loop then goes on with the arguments behind them.
pub parse_arguments-all_written :
    (xs : List Choice) (c : TunnelConfig) (rest : List Text)
    → All IsSmall xs
    → parse_arguments c (all_written xs rest) ≡ parse_arguments (choose_all xs c) rest
parse_arguments-all_written [] c rest h = refl
parse_arguments-all_written (x ∷ xs) c rest h =
    parse_arguments-written x c (all_written xs rest) h.0
    ∙ parse_arguments-all_written xs (choose x c) rest h.1
