-- ===== src/Http2Client/Lifetime.antt =====
-- The answers that a client (src/transport/http2_client.cpp) gives over its whole life.
use mathlib.Core.Option
use http2_server.Prelude.{
  ℕ, ◌≡◌, refl, subst, Option, none, some, List, [], ◌∷◌, ◌++◌, Bool, true, false, keep_if, All,
  if◌then◌else◌, Bool-cases, Option-cases, inl, inr, arith, is_empty,
}
use http2_server.Prelude.Text.{Text}
use http2_server.Prelude.Int.{ℤ, pos, negsuc, int_eq}
use http2_server.Prelude.Map.{lookup, Distinct, insert-Distinct}
use http2_server.Session.{Event, header, frame_recv, data_chunk, stream_close}
use http2_server.Http2Client.{
  StreamData, Answer, Table, Operation, resolve, connect, read, Client, new_client, http2_response,
  send_request, connect_and_send, write_data, setup_nghttp2_client, send_http2_request,
  prepare_request, store_stream, read_data,
}
use http2_server.Http2Client.Callbacks.{step, receive}
use http2_server.Http2Client.Streams.{closes, for_stream, step-Leaves, close-Leaves, stepped}
use http2_server.Http2Client.Receiving.{receive-cons, receive-nil}
use http2_server.Http2Client.Responses.{last_status, collected, IsReadable, receive_response}
use http2_server.Http2Client.Connection.{
  Completion, handle_connect, on_resolved, on_connected, fed, on_read, finish, take_out, Input, ask,
  completed, input, live,
}

module _ {C : Type 0} where
  abbrev HasOne : Client C → Type 0
  HasOne c = Distinct c.table.streams

  step-Distinct :
      (e : Event) (t u : Table C) (o : Option (Answer C))
      → Distinct t.streams
      → step t e ≡ some (u, o)
      → Distinct u.streams
  unfolding step
  step-Distinct (header f n v) t u o q s =
      (step-Leaves (pos 0) (header f n v) t u o q refl s).distinct
  step-Distinct (frame_recv f) t u o q s =
      (step-Leaves (pos 0) (frame_recv f) t u o q refl s).distinct
  step-Distinct (data_chunk flags j x) t u o q s =
      (step-Leaves (pos 0) (data_chunk flags j x) t u o q refl s).distinct
  step-Distinct (stream_close j code) t u o q s = (stepped s (close-Leaves (pos 0) j t q)).distinct

  receive-Distinct :
      (es : List Event) (t v : Table C) (answers : List (Answer C))
      → Distinct t.streams
      → receive t es ≡ some (v, answers)
      → Distinct v.streams
  receive-Distinct [] t v answers q r =
      subst (λ (x : Table C). Distinct x.streams) (receive-nil t v answers r).0 q
  receive-Distinct (e ∷ es) t v answers q r =
      let (u, o, later, s, rest, joined) = receive-cons t v e es answers r in
      receive-Distinct es u v later (step-Distinct e t u o q s) rest

  store_stream-HasOne : (f : C) (i : ℤ) (c : Client C) → HasOne c → HasOne (store_stream f i c)
  unfolding store_stream write_data
  store_stream-HasOne f (negsuc n) c q = q
  store_stream-HasOne f (pos n) c q = insert-Distinct (pos n) _ c.table.streams q

  prepare_request-HasOne :
      (method path body : Text) (c : Client C)
      → HasOne c
      → HasOne (prepare_request method path body c)
  unfolding prepare_request
  prepare_request-HasOne method path body c q = elim (Bool-cases (is_empty body)) [
    | inl e ↦ rw e q
    | inr e ↦ rw e q
  ]

  setup-HasOne : (b : Bool) (c : Client C) → HasOne c → HasOne (setup_nghttp2_client b c)
  unfolding setup_nghttp2_client write_data
  setup-HasOne true c q = q
  setup-HasOne false c q = q

  on_read-HasOne : (k : Completion) (c d : Client C) → HasOne c → on_read k c ≡ some d → HasOne d
  unfolding on_read
  on_read-HasOne k c d q h = elim (Option-cases k.ec) [
    | inr (message, e) ↦ subst HasOne (Option.some-injective _ _ (rw (on_read, e) at h)) q
    | inl e ↦ elim (Option-cases (receive c.table k.events)) [
      | inl x ↦ absurd (ground (arith, e))
      | inr ((t, answers), x) ↦
          subst HasOne (Option.some-injective _ _ (rw (on_read, e, x) at h))
            (elim (Bool-cases k.refused) [
              | inl b ↦ rw b (unfold fed in receive-Distinct k.events c.table t answers q x)
              | inr b ↦ rw b (
                  unfold read_data in
                  unfold write_data in
                  unfold fed in receive-Distinct k.events c.table t answers q x)
            ])
    ]
  ]

  finish-HasOne :
      (o : Operation C) (k : Completion) (c d : Client C)
      → HasOne c
      → finish o k c ≡ some d
      → HasOne d
  unfolding finish on_resolved handle_connect on_connected read_data send_http2_request
  finish-HasOne (resolve r) k c d q h =
      subst HasOne (Option.some-injective _ _ h)
        (elim (Option-cases k.ec) [ inr (message, e) ↦ rw e q | inl e ↦ rw e q ])
  finish-HasOne (connect r) k c d q h =
      subst HasOne (Option.some-injective _ _ h) (elim (Option-cases k.ec) [
        | inr (message, e) ↦ rw e q
        | inl e ↦ rw e (
            store_stream-HasOne r.callback k.stream_id _
              (prepare_request-HasOne r.method r.path r.body _ (setup-HasOne k.created c q)))
      ])
  finish-HasOne read k c d q h = on_read-HasOne k c d q h

  input-HasOne : (x : Input C) (c d : Client C) → HasOne c → input x c ≡ some d → HasOne d
  unfolding input send_request connect_and_send
  input-HasOne (ask host port r) c d q h = subst HasOne (Option.some-injective _ _ h) q
  input-HasOne (completed i k) c d q h = elim (Option-cases (take_out i c.pending)) [
    | inl e ↦ subst HasOne (Option.some-injective _ _ (rw (input, e) at h)) q
    | inr ((o, rest), e) ↦ finish-HasOne o k (record c { pending = rest }) d q (rw (input, e) at h)
  ]

  live-HasOne : (xs : List (Input C)) (c d : Client C) → HasOne c → live c xs ≡ some d → HasOne d
  unfolding live
  live-HasOne [] c d q h = subst HasOne (Option.some-injective _ _ h) q
  live-HasOne (x ∷ xs) c d q h = elim (Option-cases (input x c)) [
    | inl e ↦ absurd (ground (arith, e))
    | inr (b, e) ↦ live-HasOne xs b d (input-HasOne x c b q e) (rw (live, e) at h)
  ]

  either : (b : Bool) (x y : Client C) (P : Client C → Type 0) → P x → P y → P (if b then x else y)
  either true x y P p q = p
  either false x y P p q = q

  -- After any requests and completions that let no exception escape, a read of the client completes
  -- without an error, and what it brings ends a stream that the client has open: if every status that
  -- comes is a number, no exception is thrown, the stream is gone, and among the callbacks that are
  -- called one is for the stream: its own callback, without an error, with the last status and the
  -- bytes of all its chunks, in their order, behind those that came before.
  pub live_read_responds :
      (xs : List (Input C)) (c : Client C) (n : ℕ) (rest : List (Operation C))
      (created refused : Bool) (other i : ℤ) (before after : List Event) (code : ℕ)
      (d : StreamData C)
      → live new_client xs ≡ some c
      → take_out n c.pending ≡ some (read, rest)
      → lookup i c.table.streams ≡ some d
      → All (λ e. closes i e ≡ false) before
      → All IsReadable (before ++ stream_close i code ∷ after)
      → let k : Completion = record {
        ec = none;
        created = created;
        stream_id = other;
        events = before ++ stream_close i code ∷ after;
        refused = refused;
      } in
        (next : Client C) × (answers : List (Answer C)) × (input (completed n k) c ≡ some next)
        × (lookup i next.table.streams ≡ none)
        × (next.called ≡ c.called ++ answers)
        × (keep_if (for_stream i) answers
            ≡ record {
              stream_id = i;
              callback = d.callback;
              response =
                  http2_response
                    (last_status i d.response.status_code before)
                    (d.body_buffer ++ collected i before);
              error = [];
            }
              ∷ [])
  unfolding input finish on_read fed read_data write_data
  live_read_responds xs c n rest created refused other i before after code d alive under_way found
        open_until readable =
      let (v, answers, e, gone, one) =
        receive_response i before after code d c.table (live-HasOne xs new_client c tt alive) found
          open_until readable in
      let left = fed (v, answers) (record c { pending = rest }) in
      (
        if refused then left else read_data (write_data left),
        answers,
        rw (input, under_way, finish, on_read, e) refl,
        either refused left (read_data (write_data left)) (λ x. lookup i x.table.streams ≡ none)
            gone gone,
        either refused left (read_data (write_data left)) (λ x. x.called ≡ c.called ++ answers) refl
            refl,
        one,
      )
