-- ===== src/Startup/Config.antt =====
-- What the environment makes of the server (src/main.cpp).
use http2_server.Prelude.{
  Bool, ℕ, zero, suc, ◌+◌, ◌^◌, ◌<◌, ◌≡◌, ◌↔◌, ◌⊎◌, inl, inr, refl, ap, Option, none, some, ltb,
  arith, if◌then◌else◌, Option-cases, sym, Bool-cases,
}
use mathlib.Core.Option
use http2_server.Prelude.Text.{Text, codes}
use http2_server.Prelude.Int.{ℤ, pos, negsuc}
use http2_server.Prelude.Decimal.{to_string, InIntRange, stoi-to_string}
use http2_server.Startup.{
  Settings, Environment, int_variable, flag_variable, text_variable, read_settings, unsigned_short,
  short, server_port, http1_proxy_port, pool, start,
}

-- The variable gives this number: it is unset, or it is the print of an `int`.
abbrev pub Gives : Environment → Text → ℤ → ℤ → Type 0
Gives getenv name default n =
    ((getenv name ≡ none) × (n ≡ default)) ⊎ ((getenv name ≡ some (to_string n)) × InIntRange n)

int_variable-Gives :
    (getenv : Environment) (name : Text) (default n : ℤ)
    → Gives getenv name default n
    → int_variable getenv name default ≡ some n
unfolding int_variable
int_variable-Gives getenv name default n (inl (unset, e)) = rw (int_variable, unset, e) refl
int_variable-Gives getenv name default n (inr (set, small)) =
    rw (int_variable, set) (stoi-to_string n small)

unsigned_short-short : (i : ℤ) → unsigned_short (short i) ≡ unsigned_short i
unfolding unsigned_short short
unsigned_short-short (pos n) = ground arith
unsigned_short-short (negsuc n) = ground arith

unsigned_short-bound : (i : ℤ) → unsigned_short i < 2 ^ 16
unfolding unsigned_short
unsigned_short-bound (pos n) = omega arith
unsigned_short-bound (negsuc n) = omega arith

abbrev magnitude : ℤ → ℕ
magnitude (pos n) = n
magnitude (negsuc n) = n

-- A number that a port can have.
abbrev pub IsPort : ℤ → Type 0
IsPort (pos n) = n < 2 ^ 16
IsPort (negsuc n) = ⊥

IsPort-iff : (i : ℤ) → (i ≡ pos (unsigned_short i)) ↔ IsPort i
unfolding unsigned_short
IsPort-iff (pos n) = (λ e. omega (arith, ap magnitude e), λ h. ap pos (omega arith))
IsPort-iff (negsuc n) = (λ e. ground arith, λ h. absurd h)

-- The two servers take the same port for the same number, though one of them reads it as a `short`; it
-- fits 16 bits; and it is the number that was given exactly when that is from 0 to 65535.
pub server_port_lem :
    (i : ℤ)
    → (server_port i ≡ http1_proxy_port i)
      × (server_port i < 2 ^ 16)
      × ((i ≡ pos (server_port i)) ↔ IsPort i)
unfolding server_port http1_proxy_port
server_port_lem i = rw (unsigned_short-short i) (refl, unsigned_short-bound i, IsPort-iff i)

-- The threads of a server for a number that is given; none if it does not start.
abbrev pub workers : ℤ → Option ℕ
workers (negsuc n) = none
workers (pos n) = some (if ltb n 1 then 1 else n)

pool-workers : (t : ℤ) → Option.map (λ n. n + 1) (pool t) ≡ workers t
unfolding pool
pool-workers (negsuc n) = refl
pool-workers (pos zero) = refl
pool-workers (pos (suc n)) = ground arith

-- The settings with these numbers, and with what else the environment gives.
abbrev pub settings_of : Environment → ℤ → ℤ → ℤ → Settings
settings_of getenv port http1_port threads = record {
  port = port;
  http1_port = http1_port;
  threads = threads;
  use_ssl = flag_variable getenv (codes "USE_SSL");
  cert_file = text_variable getenv (codes "CERT_FILE") (codes "certs/server.crt");
  key_file = text_variable getenv (codes "KEY_FILE") (codes "certs/server.key");
}

read_settings-Gives :
    (getenv : Environment) (port http1_port threads : ℤ)
    → Gives getenv (codes "PORT") (pos 8080) port
    → Gives getenv (codes "HTTP1_PORT") (pos 9080) http1_port
    → Gives getenv (codes "THREADS") (pos 4) threads
    → read_settings getenv ≡ some (settings_of getenv port http1_port threads)
unfolding read_settings
read_settings-Gives getenv port http1_port threads p h t =
    rw
      (
        read_settings,
        int_variable-Gives getenv _ _ _ p,
        int_variable-Gives getenv _ _ _ h,
        int_variable-Gives getenv _ _ _ t,
      )
      refl

-- If each of the three numbers is unset or the print of an `int`: the server comes to its threads, on
-- the two ports of those numbers or of their defaults, exactly when what these settings name can be
-- opened and the number of threads is not negative, and then it is to have that many threads, but at
-- least one.
pub start_serves :
    (opens : Settings → Bool) (getenv : Environment) (port http1_port threads : ℤ)
    → Gives getenv (codes "PORT") (pos 8080) port
    → Gives getenv (codes "HTTP1_PORT") (pos 9080) http1_port
    → Gives getenv (codes "THREADS") (pos 4) threads
    → start opens getenv ≡ (
        if opens (settings_of getenv port http1_port threads)
        then Option.map
            (λ n. record {
              port = unsigned_short port;
              http1_port = unsigned_short http1_port;
              use_ssl = flag_variable getenv (codes "USE_SSL");
              threads = n;
            })
            (workers threads)
        else none)
unfolding start server_port http1_proxy_port
start_serves opens getenv port http1_port threads p h t =
    let read = read_settings-Gives getenv port http1_port threads p h t in
    elim (Bool-cases (opens (settings_of getenv port http1_port threads))) [
      | inr closed ↦ rw (start, read, closed) refl
      | inl opened ↦
          rw
            (
              start,
              read,
              opened,
              server_port,
              unsigned_short-short port,
              sym (pool-workers threads),
            )
            (elim (Option-cases (pool threads)) [ inl e ↦ rw e refl | inr (n, e) ↦ rw e refl ])
    ]
