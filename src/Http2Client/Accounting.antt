-- ===== src/Http2Client/Accounting.antt =====
-- How the callbacks that a client holds are used up: how often it (src/transport/http2_client.cpp) calls the callback of a request.
use mathlib.Core.Option
use http2_server.Prelude.{
  ℕ, ◌+◌, ◌≤◌, ◌≡◌, refl, sym, ap, ◌∙◌, Option, none, some, List, [], ◌∷◌, ◌++◌, Bool, false, ◌&&◌,
  Bool-cases, Option-cases, inl, inr, if◌then◌else◌, arith,
}
use http2_server.Prelude.Text.{Text, text_eq}
use http2_server.Prelude.Int.{ℤ, int_eq}
use http2_server.Prelude.Decimal.{stoi}
use http2_server.Prelude.Map.{lookup, insert, erase}
use http2_server.Nghttp2.{Frame, is_headers, is_response}
use http2_server.Session.{Event, header, frame_recv, data_chunk, stream_close}
use http2_server.Http2Client.{StreamData, Streams, Answer, Table, Operation, resolve, connect, read}
use http2_server.Http2Client.Callbacks.{
  answer, grow, update, on_header_cb, on_data_chunk_recv_cb, on_stream_close_cb, step, receive,
  with_answer,
}
use http2_server.Http2Client.Streams.{set_status, on_entry-update}
use http2_server.Http2Client.Receiving.{receive-cons, receive-nil}
use http2_server.Http2Client.Connection.{Input, ask, completed}

-- How many elements pass a test.
unfoldable pub tally {ℓ} : {A : Type ℓ} → (A → Bool) → List A → ℕ
tally p [] = 0
tally p (x ∷ xs) = (if p x then 1 else 0) + tally p xs

pub tally-append {ℓ} :
    {A : Type ℓ} (p : A → Bool) (xs ys : List A) → tally p (xs ++ ys) ≡ tally p xs + tally p ys
unfolding tally
tally-append p [] ys = omega arith
tally-append p (x ∷ xs) ys = omega (arith, tally-append p xs ys)

module _ {C : Type 0} (p : C → Bool) where
  -- The operation is on the way to send a request of the callbacks that are counted.
  abbrev pub sends : Operation C → Bool
  sends (resolve r) = p r.callback
  sends (connect r) = p r.callback
  sends read = false

  abbrev pub held_by : ℤ × StreamData C → Bool
  held_by e = p e.1.callback

  abbrev pub made_to : Answer C → Bool
  made_to a = p a.callback

  abbrev pub requests : Input C → Bool
  requests (ask host port r) = p r.callback
  requests (completed i k) = false

  one_if : Bool → ℕ
  one_if b = if b then 1 else 0

  pub tally-insert :
      (j : ℤ) (x : StreamData C) (m : Streams C)
      → tally held_by (insert j x m) ≤ tally held_by m + (if p x.callback then 1 else 0)
  unfolding tally insert
  tally-insert j x [] = omega arith
  tally-insert j x ((i, d) ∷ m) = ground (arith, tally-insert j x m)

  tally-replace :
      (j : ℤ) (d x : StreamData C) (m : Streams C)
      → lookup j m ≡ some d
      → x.callback ≡ d.callback
      → tally held_by (insert j x m) ≡ tally held_by m
  unfolding tally insert lookup
  tally-replace j d x [] h e = cc
  tally-replace j d x ((i, c) ∷ m) h e = ground (arith, tally-replace j d x m)

  tally-erase :
      (j : ℤ) (m : Streams C)
      → tally held_by (erase j m)
          + tally made_to (with_answer (Option.map (answer j) (lookup j m)) [])
        ≡ tally held_by m
  unfolding tally erase lookup
  tally-erase j [] = refl
  tally-erase j ((i, c) ∷ m) = ground (arith, tally-erase j m)

  -- The callbacks that a table holds and those that have been called.
  abbrev pub charge : Table C → List (Answer C) → ℕ
  charge t answers = tally made_to answers + tally held_by t.streams

  charge-nil : (t : Table C) → charge t [] ≡ tally held_by t.streams
  unfolding tally
  charge-nil t = omega arith

  update-tally :
      (j : ℤ) (f : StreamData C → StreamData C) (t : Table C)
      → ((d : StreamData C) → (f d).callback ≡ d.callback)
      → tally held_by (update j (Option.map f (lookup j t.streams)) t).streams
        ≡ tally held_by t.streams
  update-tally j f t same = elim (Option-cases (lookup j t.streams)) [
    | inl e ↦ rw e refl
    | inr (d, e) ↦ rw e (tally-replace j d (f d) t.streams e (same d))
  ]

  set_status-callback :
      (name value : Text) (d : StreamData C) → (set_status name value d).callback ≡ d.callback
  set_status-callback name value d = elim (Option-cases (stoi value)) [
    | inl x ↦ ground (arith, x)
    | inr (code, x) ↦ ground (arith, x)
  ]

  header-tally :
      (f : Frame) (name value : Text) (t u : Table C)
      → on_header_cb f name value t ≡ some u
      → tally held_by u.streams ≡ tally held_by t.streams
  unfolding on_header_cb
  header-tally f name value t u h = elim (Bool-cases (is_headers f.type && is_response f.cat)) [
    | inl b ↦
        ap (λ (x : Table C). tally held_by x.streams)
          (sym
            (on_entry-update f.stream_id name value (lookup f.stream_id t.streams) t u (rw b at h)))
        ∙ update-tally f.stream_id (set_status name value) t (set_status-callback name value)
    | inr b ↦
        ap (λ (x : Table C). tally held_by x.streams) (sym (Option.some-injective _ _ (rw b at h)))
  ]

  step-charge :
      (e : Event) (t u : Table C) (o : Option (Answer C))
      → step t e ≡ some (u, o)
      → charge u (with_answer o []) ≡ tally held_by t.streams
  unfolding step
  step-charge (header f name value) t u o s = elim (Option-cases (on_header_cb f name value t)) [
    | inl e ↦ absurd (ground arith)
    | inr (v, e) ↦
        ap (λ (x : Table C × Option (Answer C)). charge x.0 (with_answer x.1 []))
          (sym (Option.some-injective _ _ (rw (e, step) at s)))
        ∙ (charge-nil v ∙ header-tally f name value t v e)
  ]
  step-charge (frame_recv f) t u o s =
      ap (λ (x : Table C × Option (Answer C)). charge x.0 (with_answer x.1 []))
        (sym (Option.some-injective _ _ s))
      ∙ charge-nil t
  step-charge (data_chunk flags j content) t u o s =
      ap (λ (x : Table C × Option (Answer C)). charge x.0 (with_answer x.1 []))
        (sym (Option.some-injective _ _ s))
      ∙ (charge-nil (on_data_chunk_recv_cb j content t)
          ∙ unfold on_data_chunk_recv_cb in update-tally j (grow content) t (λ d. refl))
  step-charge (stream_close j code) t u o s =
      ap (λ (x : Table C × Option (Answer C)). charge x.0 (with_answer x.1 []))
        (sym (Option.some-injective _ _ s))
      ∙ unfold on_stream_close_cb in omega (arith, tally-erase j t.streams)

  with_answer-append :
      (o : Option (Answer C)) (later : List (Answer C))
      → with_answer o later ≡ with_answer o [] ++ later
  with_answer-append none later = refl
  with_answer-append (some a) later = refl

  pub receive-charge :
      (es : List Event) (t v : Table C) (answers : List (Answer C))
      → receive t es ≡ some (v, answers)
      → charge v answers ≡ tally held_by t.streams
  receive-charge [] t v answers r =
      let (same, empty) = receive-nil t v answers r in rw (sym same, sym empty) (charge-nil t)
  receive-charge (e ∷ es) t v answers r =
      let (u, o, later, s, rest, joined) = receive-cons t v e es answers r in
      rw (sym joined, with_answer-append o later)
        (omega (
          arith,
          tally-append made_to (with_answer o []) later,
          step-charge e t u o s,
          receive-charge es u v later rest,
        ))
