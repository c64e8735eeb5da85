-- ===== src/Session/Streams.antt =====
-- The streams of a session (src/transport/session.cpp) do not disturb one another: whatever nghttp2
-- interleaves, each stream behaves as if it were alone.
use http2_server.Prelude.{
  ◌≡◌, refl, ◌≢◌, Option, none, some, List, [], ◌∷◌, Bool, ◌==◌, ◌&&◌, eq_iff, Bool-cases, inl, inr,
  keep_if, if◌then◌else◌, arith,
}
use http2_server.Prelude.Int.{ℤ, int_eq}
use http2_server.Prelude.Map.{
  lookup, Distinct, insert-Distinct, erase-Distinct, lookup-insert_eq, lookup-insert_ne,
  lookup-erase_eq, lookup-erase_ne,
}
use http2_server.Nghttp2.{end_stream}
use http2_server.Session.{
  StreamData, Streams, Invocation, Event, header, frame_recv, data_chunk, stream_close, entry,
  process, opens_request, store_header, append_body, step, run, with_call, invoke,
}

-- The stream that an event is about.
abbrev pub stream_of : Event → ℤ
stream_of (header frame name value) = frame.stream_id
stream_of (frame_recv frame) = frame.stream_id
stream_of (data_chunk flags stream_id content) = stream_id
stream_of (stream_close stream_id error_code) = stream_id

-- One stream on its own.
abbrev pub alone : Option StreamData → Event → Option StreamData × Option Invocation
alone d (header frame name value) =
    (if opens_request frame then some (store_header name value (entry d)) else d, none)
alone d (frame_recv frame) =
    (d, if opens_request frame && end_stream frame.flags then process frame.stream_id d else none)
alone d (data_chunk flags stream_id content) = (
  some (append_body content (entry d)),
  if end_stream flags then some (invoke stream_id (append_body content (entry d))) else none,
)
alone d (stream_close stream_id error_code) = (none, none)

unfoldable pub run_alone : Option StreamData → List Event → Option StreamData × List Invocation
run_alone d [] = (d, [])
run_alone d (e ∷ es) =
    let (next, call) = alone d e in
    let (last, calls) = run_alone next es in (last, with_call call calls)

abbrev pub on_stream : ℤ → Event → Bool
on_stream i e = stream_of e == i

abbrev pub for_stream : ℤ → Invocation → Bool
for_stream i c = c.stream_id == i

step-Distinct : (s : Streams) (e : Event) → Distinct s → Distinct (step s e).0
unfolding step
step-Distinct s (header frame name value) d = ground (
  arith,
  insert-Distinct frame.stream_id (store_header name value (entry (lookup frame.stream_id s))) s d,
)
step-Distinct s (frame_recv frame) d = d
step-Distinct s (data_chunk flags i content) d = insert-Distinct i _ s d
step-Distinct s (stream_close i error_code) d = erase-Distinct i s d

-- An event of this stream does to it what it does to the stream alone.
step_same :
    (s : Streams) (e : Event) (i : ℤ)
    → Distinct s
    → stream_of e ≡ i
    → (lookup i (step s e).0 ≡ (alone (lookup i s) e).0) × ((step s e).1 ≡ (alone (lookup i s) e).1)
unfolding step
step_same s (header frame name value) i d h =
    ground
      (arith, lookup-insert_eq (store_header name value (entry (lookup frame.stream_id s))) s h)
step_same s (frame_recv frame) i d h = ground arith
step_same s (data_chunk flags j content) i d h =
    let grown = append_body content (entry (lookup j s)) in
    ground (arith, lookup-insert_eq grown s h, lookup-insert_eq {k = j} {j = j} grown s refl)
step_same s (stream_close j error_code) i d h = ground (arith, lookup-erase_eq s d h)

-- An event of another stream leaves this one as it is, and calls back for the other.
step_other :
    (s : Streams) (e : Event) (i : ℤ)
    → Distinct s
    → stream_of e ≢ i
    → lookup i (step s e).0 ≡ lookup i s
unfolding step
step_other s (header frame name value) i d h =
    ground
      (arith, lookup-insert_ne (store_header name value (entry (lookup frame.stream_id s))) s h)
step_other s (frame_recv frame) i d h = refl
step_other s (data_chunk flags j content) i d h =
    lookup-insert_ne (append_body content (entry (lookup j s))) s h
step_other s (stream_close j error_code) i d h = lookup-erase_ne s d h

-- A callback names the stream that its event is about.
step_names :
    (s : Streams) (e : Event) (c : Invocation) → (step s e).1 ≡ some c → c.stream_id ≡ stream_of e
unfolding step
step_names s (header frame name value) c h = cc
step_names s (frame_recv frame) c h = ground arith
step_names s (data_chunk flags j content) c h = ground arith
step_names s (stream_close j error_code) c h = cc

with_call-other :
    (i : ℤ) {j : ℤ} (o : Option Invocation) (rest : List Invocation)
    → j ≢ i
    → ((c : Invocation) → o ≡ some c → c.stream_id ≡ j)
    → keep_if (for_stream i) (with_call o rest) ≡ keep_if (for_stream i) rest
with_call-other i none rest h names = refl
with_call-other i (some c) rest h names =
    let e = names c refl in ground (arith, eq_iff c.stream_id i)

-- From a table with one entry for each stream, whatever nghttp2 interleaves: what a session holds
-- for a stream, and the calls of `request_cb_` for it, are those of the stream's own events with
-- no other stream about.
pub run_isolated :
    (s : Streams) (es : List Event) (i : ℤ)
    → Distinct s
    → (lookup i (run s es).0 ≡ (run_alone (lookup i s) (keep_if (on_stream i) es)).0)
      × (keep_if (for_stream i) (run s es).1
          ≡ (run_alone (lookup i s) (keep_if (on_stream i) es)).1)
unfolding run run_alone
run_isolated s [] i d = (refl, refl)
run_isolated s (e ∷ es) i d = elim (Bool-cases (stream_of e == i)) [
  | inl q ↦
      let same = (eq_iff (stream_of e) i).0 q in
      ground (
        arith,
        step_same s e i d same,
        step_names s e,
        run_isolated (step s e).0 es i (step-Distinct s e d),
      )
  | inr q ↦
      let differs : stream_of e ≢ i = λ p. ground (arith, eq_iff (stream_of e) i) in
      ground (
        arith,
        step_other s e i d differs,
        with_call-other i (step s e).1 (run (step s e).0 es).1 differs (step_names s e),
        run_isolated (step s e).0 es i (step-Distinct s e d),
      )
]
