-- ===== src/Http2Client/Streams.antt =====
-- What the callbacks of nghttp2 make of one stream of a client (src/transport/http2_client.cpp), among
-- those of other streams.
use mathlib.Core.Option
use http2_server.Prelude.{
  ◌≡◌, refl, ◌∙◌, Option, none, some, List, [], Bool, true, false, ◌==◌, ◌&&◌, eq_iff, Bool-cases,
  Option-cases, inl, inr, keep_if, subst, if◌then◌else◌, arith,
}
use http2_server.Prelude.Text.{Text, codes, text_eq}
use http2_server.Prelude.Int.{ℤ, int_eq}
use http2_server.Prelude.Decimal.{stoi}
use http2_server.Prelude.Map.{
  lookup, Distinct, insert-Distinct, erase-Distinct, lookup-insert, lookup-erase,
}
use http2_server.Nghttp2.{Frame, is_headers, is_response}
use http2_server.Session.{Event, header, frame_recv, data_chunk, stream_close}
use http2_server.Http2Client.{StreamData, Answer, Table}
use http2_server.Http2Client.Callbacks.{
  answer, grow, with_status, update, store_header, on_entry, on_header_cb, on_data_chunk_recv_cb,
  on_stream_close_cb, step, with_answer,
}

-- The event ends this stream.
abbrev pub closes : ℤ → Event → Bool
closes i (stream_close j error_code) = j == i
closes i _ = false

module _ {C : Type 0} where
  -- The status that a header sets; a value that is no number sets none.
  abbrev pub set_status : Text → Text → StreamData C → StreamData C
  set_status name value d =
      if name == codes ":status"
      then elim (stoi value) [ none ↦ d | some code ↦ with_status code d ]
      else d

  -- The plain reading of one event for one stream.
  abbrev pub advance : ℤ → Event → StreamData C → StreamData C
  advance i (header f name value) d =
      if (is_headers f.type && is_response f.cat) && (f.stream_id == i)
      then set_status name value d
      else d
  advance i (data_chunk flags j content) d = if j == i then grow content d else d
  advance i (frame_recv f) d = d
  advance i (stream_close j error_code) d = d

  abbrev pub for_stream : ℤ → Answer C → Bool
  for_stream i a = a.stream_id == i

  -- What a step leaves of a stream, and what it answers for it.
  pub record Leaves (i : ℤ) (d : Option (StreamData C)) (a : List (Answer C)) (t : Table C)
      (o : Option (Answer C)) : Type 0 where
    pub distinct : Distinct t.streams
    pub held : lookup i t.streams ≡ d
    pub answers : keep_if (for_stream i) (with_answer o []) ≡ a

  -- The entry of a stream is replaced.
  update-Leaves :
      (i j : ℤ) (f : StreamData C → StreamData C) (t : Table C)
      → Distinct t.streams
      → Leaves i
          (if j == i then Option.map f (lookup i t.streams) else lookup i t.streams)
          []
          (update j (Option.map f (lookup j t.streams)) t)
          none
  update-Leaves i j f t q = elim (Option-cases (lookup j t.streams)) [
    | inl e ↦ rw e (record { distinct = q; held = ground (arith, eq_iff j i); answers = refl })
    | inr (d, e) ↦ rw e (record {
      distinct = insert-Distinct j (f d) t.streams q;
      held = ground (arith, eq_iff j i, lookup-insert j i (f d) t.streams);
      answers = refl;
    })
  ]

  pub close-Leaves :
      (i j : ℤ) (t : Table C)
      → Distinct t.streams
      → Leaves i
          (if j == i then none else lookup i t.streams)
          (if j == i then with_answer (Option.map (answer i) (lookup i t.streams)) [] else [])
          (on_stream_close_cb j t).0
          (on_stream_close_cb j t).1
  unfolding on_stream_close_cb
  close-Leaves i j t q = elim (Option-cases (lookup j t.streams)) [
    | inl e ↦ record {
      distinct = erase-Distinct j t.streams q;
      held = lookup-erase j i t.streams q;
      answers = ground (arith, eq_iff j i);
    }
    | inr (d, e) ↦ record {
      distinct = erase-Distinct j t.streams q;
      held = lookup-erase j i t.streams q;
      answers = ground (arith, eq_iff j i);
    }
  ]

  pub on_entry-update :
      (j : ℤ) (name value : Text) (o : Option (StreamData C)) (t u : Table C)
      → on_entry (store_header name value) j o t ≡ some u
      → update j (Option.map (set_status name value) o) t ≡ u
  on_entry-update j name value none t u h = ground arith
  on_entry-update j name value (some d) t u h = elim (Option-cases (stoi value)) [
    | inl x ↦ ground (arith, x)
    | inr (code, x) ↦ ground (arith, x)
  ]

  pub relabel :
      {i : ℤ} {d e : Option (StreamData C)} {a : List (Answer C)} {t : Table C}
      {o : Option (Answer C)}
      → d ≡ e
      → Leaves i d a t o
      → Leaves i e a t o
  relabel p l = record { distinct = l.distinct; held = l.held ∙ p; answers = l.answers }

  moved :
      {i : ℤ} {d : Option (StreamData C)} {a : List (Answer C)} {t u : Table C}
      {o : Option (Answer C)}
      → t ≡ u
      → Leaves i d a t o
      → Leaves i d a u o
  moved {i} {d} {a} {o = o} p l = subst (λ x. Leaves i d a x o) p l

  pub stepped :
      {i : ℤ} {d : Option (StreamData C)} {a : List (Answer C)} {p r : Table C × Option (Answer C)}
      → some p ≡ some r
      → Leaves i d a p.0 p.1
      → Leaves i d a r.0 r.1
  stepped {i} {d} {a} e l = subst (λ x. Leaves i d a x.0 x.1) (Option.some-injective _ _ e) l

  if-map :
      (b : Bool) (f : StreamData C → StreamData C) (o : Option (StreamData C))
      → (if b then Option.map f o else o) ≡ Option.map (λ d. if b then f d else d) o
  if-map true f none = refl
  if-map true f (some d) = refl
  if-map false f none = refl
  if-map false f (some d) = refl

  same-Leaves : (i : ℤ) (t : Table C) → Distinct t.streams → Leaves i (lookup i t.streams) [] t none
  same-Leaves i t q = record { distinct = q; held = refl; answers = refl }

  if-if :
      (b c : Bool) (f : StreamData C → StreamData C) (o : Option (StreamData C))
      → (if b then (if c then Option.map f o else o) else o)
        ≡ Option.map (λ d. if b && c then f d else d) o
  if-if true c f o = if-map c f o
  if-if false c f o = if-map false f o

  header-Leaves :
      (i : ℤ) (f : Frame) (name value : Text) (t u : Table C)
      → Distinct t.streams
      → on_header_cb f name value t ≡ some u
      → Leaves i (Option.map (advance i (header f name value)) (lookup i t.streams)) [] u none
  unfolding on_header_cb
  header-Leaves i f name value t u q h =
      relabel
        (if-if (is_headers f.type && is_response f.cat) (f.stream_id == i) (set_status name value)
          (lookup i t.streams))
        (elim (Bool-cases (is_headers f.type && is_response f.cat)) [
          | inl b ↦ rw b (
              moved
                (on_entry-update f.stream_id name value (lookup f.stream_id t.streams) t u
                  (rw b at h))
                (update-Leaves i f.stream_id (set_status name value) t q))
          | inr b ↦ rw b (moved (Option.some-injective _ _ (rw b at h)) (same-Leaves i t q))
        ])

  -- Any event but the end of this stream.
  pub step-Leaves :
      (i : ℤ) (e : Event) (t u : Table C) (o : Option (Answer C))
      → Distinct t.streams
      → closes i e ≡ false
      → step t e ≡ some (u, o)
      → Leaves i (Option.map (advance i e) (lookup i t.streams)) [] u o
  unfolding step
  step-Leaves i (frame_recv f) t u o q c s =
      stepped s (relabel (if-map false (λ d. d) (lookup i t.streams)) (same-Leaves i t q))
  step-Leaves i (data_chunk flags j content) t u o q c s = stepped s (
      relabel (if-map (j == i) (grow content) (lookup i t.streams))
        (unfold on_data_chunk_recv_cb in update-Leaves i j (grow content) t q))
  step-Leaves i (stream_close j error_code) t u o q c s =
      stepped s
        (relabel (if-map false (λ d. d) (lookup i t.streams)) (rw c at (close-Leaves i j t q)))
  step-Leaves i (header f name value) t u o q c s =
      elim (Option-cases (on_header_cb f name value t)) [
        | inl e ↦ absurd (ground arith)
        | inr (v, e) ↦ stepped (rw (e, step) at s) (header-Leaves i f name value t v q e)
      ]
