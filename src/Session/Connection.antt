-- ===== src/Session/Connection.antt =====
-- The life of a `Session` (src/transport/session.cpp): `start`, the TLS handshake, the set-up of
-- nghttp2 and the read loop. The plain and the TLS branch of `read_data` differ only in the socket.
use http2_server.Prelude.{
  ◌≡◌, refl, sym, ap, ◌∙◌, append-nil, append_assoc, ◌⊎◌, inl, inr, List, [], ◌∷◌, ◌++◌, Bool, true,
  false, if◌then◌else◌, All, arith,
}
use http2_server.Nghttp2.{Nghttp2Call, submit_settings, session_send, max_concurrent_streams}
use http2_server.Session.{Streams, Invocation, Event, step, run, write_data}

-- Which asynchronous operation is under way.
pub data Waiting : Type 0 where
  unstarted handshaking reading closed : Waiting

pub record Connection : Type 0 where
  pub use_ssl : Bool
  pub waiting : Waiting
  pub streams : Streams
  pub calls : List Nghttp2Call
  pub invoked : List Invocation

unfoldable pub new : Bool → Connection
new use_ssl = record {
  use_ssl = use_ssl;
  waiting = unstarted;
  streams = [];
  calls = [];
  invoked = [];
}

abbrev pub initial_settings : Nghttp2Call
initial_settings = submit_settings ((max_concurrent_streams, 100) ∷ [])

unfoldable pub setup_nghttp2 : Connection → Connection
setup_nghttp2 s = record s { calls = s.calls ++ initial_settings ∷ [] }

unfoldable pub read_data : Connection → Connection
read_data s = record s { waiting = reading }

unfoldable pub handle_ssl_handshake : Connection → Connection
handle_ssl_handshake s = record s { waiting = handshaking }

unfoldable pub start : Connection → Connection
unfolding setup_nghttp2 read_data handle_ssl_handshake
start s = if s.use_ssl then handle_ssl_handshake s else read_data (setup_nghttp2 s)

-- What completes: the handshake, or a read with the callbacks that `nghttp2_session_mem_recv` makes
-- for its bytes and whether it then returns an error. `failed` is the operation's own error code.
pub data Completion : Type 0 where
  handshake : Bool → Completion
  read : Bool → List Event → Bool → Completion

unfoldable pub on_handshake : Bool → Connection → Connection
unfolding setup_nghttp2 read_data
on_handshake failed s =
    if failed then record s { waiting = closed } else read_data (setup_nghttp2 s)

-- The callbacks have run before `nghttp2_session_mem_recv` returns its error.
unfoldable pub on_read : Bool → List Event → Bool → Connection → Connection
unfolding read_data write_data
on_read failed events refused s =
    let received = run s.streams events in
    let fed = record s { streams = received.0; invoked = s.invoked ++ received.1 } in
    if failed
    then record s { waiting = closed }
    else if refused
    then record fed { waiting = closed }
    else read_data (record fed { calls = fed.calls ++ write_data })

-- A completion of an operation that is not under way does not occur.
unfoldable pub on_completion : Waiting → Completion → Connection → Connection
unfolding on_handshake on_read
on_completion handshaking (handshake failed) s = on_handshake failed s
on_completion reading (read failed events refused) s = on_read failed events refused s
on_completion _ _ s = s

pub live : Connection → List Completion → Connection
live s [] = s
live s (c ∷ cs) = live (on_completion s.waiting c s) cs

-- The settings first and once, and then nothing but sends.
abbrev pub Opening : List Nghttp2Call → Type 0
Opening calls =
    (sends : List Nghttp2Call) × (calls ≡ initial_settings ∷ sends)
    × All (λ c. c ≡ session_send) sends

-- While no read is under way nothing is submitted, and no request is passed on.
abbrev pub WellStarted : Waiting → List Nghttp2Call → List Invocation → Type 0
WellStarted unstarted calls invoked = (calls ≡ []) × (invoked ≡ [])
WellStarted handshaking calls invoked = (calls ≡ []) × (invoked ≡ [])
WellStarted reading calls invoked = Opening calls
WellStarted closed calls invoked = ((calls ≡ []) × (invoked ≡ [])) ⊎ Opening calls

abbrev Good : Connection → Type 0
Good s = WellStarted s.waiting s.calls s.invoked

All-snoc {ℓ κ} :
    {A : Type ℓ} (P : A → Type κ) (xs : List A) {x : A} → All P xs → P x → All P (xs ++ x ∷ [])
All-snoc P [] h p = (p, tt)
All-snoc P (y ∷ ys) h p = (h.0, All-snoc P ys h.1 p)

Opening-send : (calls : List Nghttp2Call) → Opening calls → Opening (calls ++ session_send ∷ [])
Opening-send calls (sends, e, h) =
    (sends ++ session_send ∷ [], ap (λ c. c ++ session_send ∷ []) e, All-snoc _ sends h refl)

on_handshake-Good :
    (failed : Bool) (s : Connection) → s.calls ≡ [] → s.invoked ≡ [] → Good (on_handshake failed s)
unfolding on_handshake
on_handshake-Good true s c i = inl (c, i)
on_handshake-Good false s c i = ([], ap (λ x. x ++ initial_settings ∷ []) c, tt)

on_read-Good :
    (failed : Bool) (events : List Event) (refused : Bool) (s : Connection)
    → Opening s.calls
    → Good (on_read failed events refused s)
unfolding on_read
on_read-Good true events refused s o = inr o
on_read-Good false events true s o = inr o
on_read-Good false events false s o = Opening-send s.calls o

on_completion-Good :
    (waiting : Waiting) (c : Completion) (s : Connection)
    → s.waiting ≡ waiting
    → WellStarted waiting s.calls s.invoked
    → Good (on_completion waiting c s)
unfolding on_completion
on_completion-Good handshaking (handshake failed) s e g = on_handshake-Good failed s g.0 g.1
on_completion-Good reading (read failed events refused) s e g =
    on_read-Good failed events refused s g
on_completion-Good handshaking (read failed events refused) s e g = rw e g
on_completion-Good reading (handshake failed) s e g = rw e g
on_completion-Good unstarted c s e g = rw e g
on_completion-Good closed c s e g = rw e g

live-Good : (s : Connection) (cs : List Completion) → Good s → Good (live s cs)
unfolding live
live-Good s [] g = g
live-Good s (c ∷ cs) g =
    live-Good (on_completion s.waiting c s) cs (on_completion-Good s.waiting c s refl g)

start-Good : (use_ssl : Bool) → Good (start (new use_ssl))
unfolding start new
start-Good true = (refl, refl)
start-Good false = ([], refl, tt)

-- Whatever completes on a started session, with TLS or without: before the first read nothing is
-- submitted to nghttp2 and no request is passed on; from then on the calls made of it are the initial
-- settings, once, and then only sends.
live-WellStarted :
    (use_ssl : Bool) (cs : List Completion)
    → let s = live (start (new use_ssl)) cs in WellStarted s.waiting s.calls s.invoked
live-WellStarted use_ssl cs = live-Good (start (new use_ssl)) cs (start-Good use_ssl)

run-append :
    (s : Streams) (es fs : List Event)
    → run s (es ++ fs) ≡ ((run (run s es).0 fs).0, (run s es).1 ++ (run (run s es).0 fs).1)
unfolding run
run-append s [] fs = refl
run-append s (e ∷ es) fs = ground (arith, run-append (step s e).0 es fs)

abbrev pub reads : List (List Event) → List Completion
reads [] = []
reads (es ∷ ess) = read false es false ∷ reads ess

abbrev pub joined : List (List Event) → List Event
joined [] = []
joined (es ∷ ess) = es ++ joined ess

live_reading :
    (s : Connection) (ess : List (List Event))
    → s.waiting ≡ reading
    → ((live s (reads ess)).streams ≡ (run s.streams (joined ess)).0)
      × ((live s (reads ess)).invoked ≡ s.invoked ++ (run s.streams (joined ess)).1)
unfolding live on_completion
live_reading s [] h = unfold run in (refl, sym (append-nil s.invoked))
live_reading s (es ∷ ess) h =
    let next = on_read false es false s in
    let step_to = ap (λ x. live (on_completion x (read false es false) s) (reads ess)) h in
    let (held, passed) = live_reading next ess refl in
    let apart = sym (run-append s.streams es (joined ess)) in
    (
      ap (λ (x : Connection). x.streams) step_to
          ∙ held
          ∙ ap (λ (r : Streams × List Invocation). r.0) apart,
      ap (λ (x : Connection). x.invoked) step_to
          ∙ passed
          ∙ append_assoc s.invoked (run s.streams es).1 _
          ∙ ap (λ (r : Streams × List Invocation). s.invoked ++ r.1) apart,
    )

-- How the bytes are cut into reads does not matter: a plain session that keeps reading holds the
-- streams, and has passed on the requests, of all the callbacks taken together.
live-reads :
    (ess : List (List Event))
    → let s = live (start (new false)) (reads ess) in
      (s.streams ≡ (run [] (joined ess)).0) × (s.invoked ≡ (run [] (joined ess)).1)
unfolding start new
live-reads ess = live_reading _ ess refl
