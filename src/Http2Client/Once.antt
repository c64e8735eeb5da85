-- ===== src/Http2Client/Once.antt =====
-- How often a client (src/transport/http2_client.cpp) calls the callback of a request.
use mathlib.Core.Option
use http2_server.Prelude.{
  ℕ, zero, suc, ◌+◌, ◌≤◌, ◌≡◌, refl, sym, ap, ◌∙◌, none, some, List, [], ◌∷◌, Bool, true, false,
  Bool-cases, Option-cases, inl, inr, if◌then◌else◌, arith, is_empty,
}
use http2_server.Prelude.Text.{Text, codes, text_eq}
use http2_server.Prelude.Int.{ℤ, pos, negsuc, int_eq}
use http2_server.Prelude.Map.{lookup}
use http2_server.Session.{Event}
use http2_server.Http2Client.{
  Answer, Table, Request, Operation, resolve, connect, read, Client, with_callback, new_client,
  send_request, connect_and_send, write_data, setup_nghttp2_client, send_http2_request,
  prepare_request, store_stream, read_data, begin_operation, call_back, submit, failure,
}
use http2_server.Http2Client.Callbacks.{receive}
use http2_server.Nghttp2.{session_send}
use http2_server.Http2Client.Connection.{
  Completion, handle_connect, on_resolved, on_connected, fed, on_read, finish, take_out, Input, ask,
  completed, input, live,
}
use http2_server.Http2Client.Accounting.{
  tally, tally-append, sends, held_by, made_to, requests, charge, tally-insert, receive-charge,
}

module _ {C : Type 0} (p : C → Bool) where
  -- What the callbacks counted may still be called, and how often they have been.
  abbrev pub weight : Client C → ℕ
  weight c = charge p c.table c.called + tally (sends p) c.pending

  store_stream-weight :
      (f : C) (i : ℤ) (c : Client C)
      → weight (store_stream f i c) ≤ weight c + (if p f then 1 else 0)
  unfolding store_stream write_data
  store_stream-weight f (negsuc n) c = omega arith
  store_stream-weight f (pos n) c = elim (Option-cases (lookup (pos n) c.table.streams)) [
    | inl e ↦ rw e (omega (arith, tally-insert p (pos n) (with_callback f none) c.table.streams))
    | inr (d, e) ↦
        rw e (omega (arith, tally-insert p (pos n) (with_callback f (some d)) c.table.streams))
  ]

  prepare_request-weight :
      (method path body : Text) (c : Client C)
      → weight (prepare_request method path body c) ≡ weight c
  unfolding prepare_request
  prepare_request-weight method path body c = elim (Bool-cases (is_empty body)) [
    | inl e ↦ rw e refl
    | inr e ↦ rw e refl
  ]

  setup-weight : (b : Bool) (c : Client C) → weight (setup_nghttp2_client b c) ≡ weight c
  unfolding setup_nghttp2_client write_data
  setup-weight true c = refl
  setup-weight false c = refl

  begin-weight :
      (o : Operation C) (c : Client C)
      → weight (begin_operation o c) ≡ weight c + (if sends p o then 1 else 0)
  unfolding tally
  begin-weight o c = omega (arith, tally-append (sends p) c.pending (o ∷ []))

  call_back-weight :
      (a : Answer C) (c : Client C)
      → weight (call_back a c) ≡ weight c + (if made_to p a then 1 else 0)
  unfolding tally
  call_back-weight a c = omega (arith, tally-append (made_to p) c.called (a ∷ []))

  fed-weight :
      (es : List Event) (t : Table C) (answers : List (Answer C)) (c : Client C)
      → receive c.table es ≡ some (t, answers)
      → weight (fed (t, answers) c) ≡ weight c
  unfolding fed
  fed-weight es t answers c h =
      omega
        (arith, tally-append (made_to p) c.called answers, receive-charge p es c.table t answers h)

  on_read-weight : (k : Completion) (c d : Client C) → on_read k c ≡ some d → weight d ≡ weight c
  unfolding on_read
  on_read-weight k c d h = elim (Option-cases k.ec) [
    | inr (message, e) ↦ ap weight (sym (Option.some-injective _ _ (rw (on_read, e) at h)))
    | inl e ↦ elim (Option-cases (receive c.table k.events)) [
      | inl x ↦ absurd (ground (arith, e))
      | inr ((t, answers), x) ↦
          ap weight (sym (Option.some-injective _ _ (rw (on_read, e, x) at h)))
          ∙ elim (Bool-cases k.refused) [
            | inl b ↦ rw b (fed-weight k.events t answers c x)
            | inr b ↦ rw b (
                unfold read_data in
                unfold write_data in
                omega (
                  arith,
                  begin-weight read (submit session_send (fed (t, answers) c)),
                  fed-weight k.events t answers c x,
                ))
          ]
    ]
  ]

  connected-weight :
      (r : Request C) (k : Completion) (c : Client C)
      → weight (
          read_data (
            send_http2_request r.method r.path r.body r.callback k.stream_id
              (setup_nghttp2_client k.created c)))
        ≤ weight c + (if p r.callback then 1 else 0)
  unfolding read_data send_http2_request
  connected-weight r k c =
      let opened = setup_nghttp2_client k.created c in
      let prepared = prepare_request r.method r.path r.body opened in
      omega (
        arith,
        begin-weight read (store_stream r.callback k.stream_id prepared),
        store_stream-weight r.callback k.stream_id prepared,
        prepare_request-weight r.method r.path r.body opened,
        setup-weight k.created c,
      )

  finish-weight :
      (o : Operation C) (k : Completion) (c d : Client C)
      → finish o k c ≡ some d
      → weight d ≤ weight c + (if sends p o then 1 else 0)
  unfolding finish on_resolved handle_connect on_connected
  finish-weight (resolve r) k c d h =
      rw (sym (Option.some-injective _ _ h)) (elim (Option-cases k.ec) [
        | inr (message, e) ↦ rw e (
            omega (
              arith,
              call_back-weight (failure r.callback (codes "Failed to resolve host: ") message) c,
            ))
        | inl e ↦ rw e (omega (arith, begin-weight (connect r) c))
      ])
  finish-weight (connect r) k c d h =
      rw (sym (Option.some-injective _ _ h)) (elim (Option-cases k.ec) [
        | inr (message, e) ↦ rw e (
            omega (
              arith,
              call_back-weight (failure r.callback (codes "Failed to connect: ") message) c,
            ))
        | inl e ↦ rw e (connected-weight r k c)
      ])
  finish-weight read k c d h = omega (arith, on_read-weight k c d h)

  take_out-tally :
      (i : ℕ) (os rest : List (Operation C)) (o : Operation C)
      → take_out i os ≡ some (o, rest)
      → tally (sends p) os ≡ tally (sends p) rest + (if sends p o then 1 else 0)
  unfolding take_out tally
  take_out-tally i [] rest o h = absurd (ground arith)
  take_out-tally zero (x ∷ os) rest o h = omega (
    arith,
    ap
        (λ (y : Operation C × List (Operation C)).
          tally (sends p) y.1 + (if sends p y.0 then 1 else 0))
        (Option.some-injective (x, os) (o, rest) h),
  )
  take_out-tally (suc i) (x ∷ os) rest o h = elim (Option-cases (take_out i os)) [
    | inl e ↦ absurd (ground arith)
    | inr ((y, ys), e) ↦ omega (
      arith,
      take_out-tally i os ys y e,
      ap
          (λ (z : Operation C × List (Operation C)).
            tally (sends p) z.1 + (if sends p z.0 then 1 else 0))
          (Option.some-injective (y, x ∷ ys) (o, rest) (rw (take_out, e) at h)),
    )
  ]

  input-weight :
      (x : Input C) (c d : Client C)
      → input x c ≡ some d
      → weight d ≤ weight c + (if requests p x then 1 else 0)
  unfolding input send_request connect_and_send
  input-weight (ask host port r) c d h = rw (sym (Option.some-injective _ _ h)) (
      omega
        (arith, begin-weight (resolve r) (record c { current_host = host; current_port = port })))
  input-weight (completed i k) c d h = elim (Option-cases (take_out i c.pending)) [
    | inl e ↦ omega (arith, ap weight (Option.some-injective _ _ (rw (input, e) at h)))
    | inr ((o, rest), e) ↦ omega (
      arith,
      take_out-tally i c.pending rest o e,
      finish-weight o k (record c { pending = rest }) d (rw (input, e) at h),
    )
  ]

  live-weight :
      (xs : List (Input C)) (c d : Client C)
      → live c xs ≡ some d
      → weight d ≤ weight c + tally (requests p) xs
  unfolding live tally
  live-weight [] c d h = omega (arith, ap weight (Option.some-injective _ _ h))
  live-weight (x ∷ xs) c d h = elim (Option-cases (input x c)) [
    | inl e ↦ absurd (ground (arith, e))
    | inr (b, e) ↦ omega (arith, input-weight x c b e, live-weight xs b d (rw (live, e) at h))
  ]

  -- After any requests and completions, in any order, that let no exception escape: of the callbacks
  -- that pass a test, those that have been called, those of requests on their way and those of
  -- streams that are open are together at most as many as were asked with. So no callback is called
  -- more often than it was given.
  pub live_at_most_once :
      (xs : List (Input C)) (d : Client C)
      → live new_client xs ≡ some d
      → tally (made_to p) d.called + tally (sends p) d.pending + tally (held_by p) d.table.streams
        ≤ tally (requests p) xs
  live_at_most_once xs d h = unfold tally in omega (arith, live-weight xs new_client d h)
