-- ===== src/Startup.antt =====
-- How the server starts (src/main.cpp): its configuration from the environment, the ports that it
-- listens on, and its threads.
pub mod Config
pub mod Shutdown
use http2_server.Prelude.{
  ℕ, zero, suc, ◌+◌, ◌-◌, ◌%◌, ◌^◌, Option, none, some, Bool, true, false, if◌then◌else◌, ◌==◌, ltb,
}
use http2_server.Prelude.Text.{Text, codes, text_eq}
use http2_server.Prelude.Int.{ℤ, pos, negsuc}
use http2_server.Prelude.Decimal.{stoi}

infixl 5 ◌>>=◌
abbrev ◌>>=◌ : {A B : Type 0} → Option A → (A → Option B) → Option B
none >>= f = none
(some a) >>= f = f a

pub record Settings : Type 0 where
  pub port : ℤ
  pub http1_port : ℤ
  pub threads : ℤ
  pub use_ssl : Bool
  pub cert_file : Text
  pub key_file : Text

-- `std::getenv`, the environment of the process.
abbrev pub Environment : Type 0
Environment = Text → Option Text

-- A variable that is read by `std::stoi`, with its default; `none` is the exception.
unfoldable pub int_variable : Environment → Text → ℤ → Option ℤ
int_variable getenv name default = elim (getenv name) [
  | none ↦ some default
  | some value ↦ stoi value
]

unfoldable pub text_variable : Environment → Text → Text → Text
text_variable getenv name default = elim (getenv name) [ none ↦ default | some value ↦ value ]

unfoldable pub flag_variable : Environment → Text → Bool
flag_variable getenv name = elim (getenv name) [ none ↦ false | some value ↦ value == codes "1" ]

unfoldable pub read_settings : Environment → Option Settings
unfolding int_variable text_variable flag_variable
read_settings getenv = do
  port ← int_variable getenv (codes "PORT") (pos 8080)
  http1_port ← int_variable getenv (codes "HTTP1_PORT") (pos 9080)
  threads ← int_variable getenv (codes "THREADS") (pos 4)
  some (record {
    port = port;
    http1_port = http1_port;
    threads = threads;
    use_ssl = flag_variable getenv (codes "USE_SSL");
    cert_file = text_variable getenv (codes "CERT_FILE") (codes "certs/server.crt");
    key_file = text_variable getenv (codes "KEY_FILE") (codes "certs/server.key");
  })

-- An integer as an `unsigned short`, of 16 bits.
unfoldable pub unsigned_short : ℤ → ℕ
unsigned_short (pos n) = n % 2 ^ 16
unsigned_short (negsuc n) = 2 ^ 16 - 1 - n % 2 ^ 16

-- An `int` as a `short`, of 16 bits with a sign.
unfoldable pub short : ℤ → ℤ
short i =
    if ltb (unsigned_short i) (2 ^ 15)
    then pos (unsigned_short i)
    else negsuc (2 ^ 16 - 1 - unsigned_short i)

-- The port of `Server(io_context, p_port)`, whose parameter is a `short`.
unfoldable pub server_port : ℤ → ℕ
server_port port = unsigned_short (short port)

-- The port of `Http1ProxyServer(io_context, port)`, whose parameter is an `int`.
unfoldable pub http1_proxy_port : ℤ → ℕ
http1_proxy_port port = unsigned_short port

-- `thread_pool.reserve(threads)` throws for a negative number, which becomes a `size_t` above every
-- vector's limit. The loop is to create a thread less than that, if there is one to create.
unfoldable pub pool : ℤ → Option ℕ
pool (negsuc n) = none
pool (pos zero) = some 0
pool (pos (suc n)) = some n

-- What `main` has when it comes to its threads.
pub record Serving : Type 0 where
  pub port : ℕ
  pub http1_port : ℕ
  pub use_ssl : Bool
  -- The threads that are to run the events, `main`'s own included.
  pub threads : ℕ

-- Opening the two acceptors and, with TLS, loading the certificate and the key; an exception if that
-- fails.
abbrev pub opened : (Settings → Bool) → Settings → Option Settings
opened opens settings = if opens settings then some settings else none

-- All before the first thread is created; `none` is an exception, with which `main` returns 1. What can
-- be opened is a parameter.
unfoldable pub start : (Settings → Bool) → Environment → Option Serving
unfolding read_settings server_port http1_proxy_port pool
start opens getenv = do
  read ← read_settings getenv
  settings ← opened opens read
  workers ← pool settings.threads
  some (record {
    port = server_port settings.port;
    http1_port = http1_proxy_port settings.http1_port;
    use_ssl = settings.use_ssl;
    threads = workers + 1;
  })
