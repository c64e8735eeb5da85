-- ===== src/Http2Client/Receiving.antt =====
-- What all events of one read make of one stream of a client (src/transport/http2_client.cpp).
use mathlib.Core.Option
use http2_server.Prelude.{
  ℕ, ◌≡◌, refl, sym, ap, ◌∙◌, Option, none, some, List, [], ◌∷◌, ◌++◌, false, ◌==◌, eq_iff, eq_refl,
  Bool-cases, Option-cases, inl, inr, keep_if, All, arith,
}
use http2_server.Prelude.Text.{text_eq}
use http2_server.Prelude.Int.{ℤ, int_eq}
use http2_server.Prelude.Map.{lookup, Distinct}
use http2_server.Session.{Event, header, frame_recv, data_chunk, stream_close}
use http2_server.Http2Client.{StreamData, Answer, Table}
use http2_server.Http2Client.Callbacks.{answer, step, receive, with_answer}
use http2_server.Http2Client.Streams.{
  closes, advance, for_stream, Leaves, close-Leaves, step-Leaves, relabel, stepped,
}

module _ {C : Type 0} where
  -- The plain reading of some events for one stream, as long as none ends it.
  abbrev pub advance_all : ℤ → List Event → StreamData C → StreamData C
  advance_all i [] d = d
  advance_all i (e ∷ es) d = advance_all i es (advance i e d)

  answers-append :
      (i : ℤ) (o : Option (Answer C)) (later : List (Answer C)) {a b : List (Answer C)}
      → keep_if (for_stream i) (with_answer o []) ≡ a
      → keep_if (for_stream i) later ≡ b
      → keep_if (for_stream i) (with_answer o later) ≡ a ++ b
  answers-append i none later {a} {b} h k = k ∙ ap (λ x. x ++ b) h
  answers-append i (some x) later h k = ground arith

  pub receive-cons :
      (t v : Table C) (e : Event) (es : List Event) (answers : List (Answer C))
      → receive t (e ∷ es) ≡ some (v, answers)
      → (u : Table C) × (o : Option (Answer C)) × (later : List (Answer C)) × (step t e
          ≡ some (u, o))
        × (receive u es ≡ some (v, later))
        × (with_answer o later ≡ answers)
  unfolding receive
  receive-cons t v e es answers h = elim (Option-cases (step t e)) [
    | inl s ↦ absurd (ground arith)
    | inr ((u, o), s) ↦ elim (Option-cases (receive u es)) [
      | inl r ↦ absurd (ground arith)
      | inr ((w, later), r) ↦
          let same = Option.some-injective _ _ (rw (receive, s, r) at h) in
          (
            u,
            o,
            later,
            s,
            r ∙ ap (λ (x : Table C × List (Answer C)). some (x.0, later)) same,
            ap (λ (x : Table C × List (Answer C)). x.1) same,
          )
    ]
  ]

  closed-Leaves :
      (i : ℤ) (code : ℕ) (t u : Table C) (o : Option (Answer C))
      → Distinct t.streams
      → step t (stream_close i code) ≡ some (u, o)
      → Leaves i none (with_answer (Option.map (answer i) (lookup i t.streams)) []) u o
  unfolding step
  closed-Leaves i code t u o q s = stepped s (rw (eq_refl i) at (close-Leaves i i t q))

  absent-Leaves :
      (i : ℤ) (e : Event) (t u : Table C) (o : Option (Answer C))
      → Distinct t.streams
      → lookup i t.streams ≡ none
      → step t e ≡ some (u, o)
      → Leaves i none [] u o
  absent-Leaves i (stream_close j code) t u o q h s = elim (Bool-cases (j == i)) [
    | inl c ↦ rw h at (closed-Leaves i code t u o q (rw ((eq_iff j i).0 c) at s))
    | inr c ↦
        relabel (ap (Option.map (advance i (stream_close j code))) h)
          (step-Leaves i (stream_close j code) t u o q c s)
  ]
  absent-Leaves i (header f n v) t u o q h s =
      relabel (ap (Option.map (advance i (header f n v))) h)
        (step-Leaves i (header f n v) t u o q refl s)
  absent-Leaves i (frame_recv f) t u o q h s =
      relabel (ap (Option.map (advance i (frame_recv f))) h)
        (step-Leaves i (frame_recv f) t u o q refl s)
  absent-Leaves i (data_chunk flags j content) t u o q h s =
      relabel (ap (Option.map (advance i (data_chunk flags j content))) h)
        (step-Leaves i (data_chunk flags j content) t u o q refl s)

  pub receive-nil :
      (t v : Table C) (answers : List (Answer C))
      → receive t [] ≡ some (v, answers)
      → (t ≡ v) × ([] ≡ answers)
  unfolding receive
  receive-nil t v answers r =
      let same = Option.some-injective (t, []) (v, answers) r in
      (
        ap (λ (x : Table C × List (Answer C)). x.0) same,
        ap (λ (x : Table C × List (Answer C)). x.1) same,
      )

  -- A stream that the client does not have stays away, and is not answered.
  receive-absent :
      (i : ℤ) (es : List Event) (t v : Table C) (answers : List (Answer C))
      → Distinct t.streams
      → lookup i t.streams ≡ none
      → receive t es ≡ some (v, answers)
      → (lookup i v.streams ≡ none) × (keep_if (for_stream i) answers ≡ [])
  receive-absent i [] t v answers q h r =
      let (same, empty) = receive-nil t v answers r in
      (
        ap (λ (x : Table C). lookup i x.streams) (sym same) ∙ h,
        ap (keep_if (for_stream i)) (sym empty),
      )
  receive-absent i (e ∷ es) t v answers q h r =
      let (u, o, later, s, rest, joined) = receive-cons t v e es answers r in
      let l = absent-Leaves i e t u o q h s in
      let (gone, none_later) = receive-absent i es u v later l.distinct l.held rest in
      (
        gone,
        ap (keep_if (for_stream i)) (sym joined) ∙ answers-append i o later l.answers none_later,
      )

  -- Among any events of other streams, a stream that is open and is then ended gets one answer: its
  -- callback is called with the status and the bytes that its own events have brought.
  pub receive_answers :
      (i : ℤ) (before after : List Event) (code : ℕ) (d : StreamData C) (t v : Table C)
      (answers : List (Answer C))
      → Distinct t.streams
      → lookup i t.streams ≡ some d
      → All (λ e. closes i e ≡ false) before
      → receive t (before ++ stream_close i code ∷ after) ≡ some (v, answers)
      → (lookup i v.streams ≡ none)
        × (keep_if (for_stream i) answers ≡ answer i (advance_all i before d) ∷ [])
  receive_answers i [] after code d t v answers q h c r =
      let (u, o, later, s, rest, joined) = receive-cons t v (stream_close i code) after answers r in
      let l = closed-Leaves i code t u o q s in
      let (gone, none_later) = receive-absent i after u v later l.distinct l.held rest in
      (
        gone,
        ap (keep_if (for_stream i)) (sym joined)
            ∙ answers-append i o later (rw h at l.answers) none_later,
      )
  receive_answers i (e ∷ before) after code d t v answers q h c r =
      let (u, o, later, s, rest, joined) =
        receive-cons t v e (before ++ stream_close i code ∷ after) answers r in
      let l = step-Leaves i e t u o q c.0 s in
      let (gone, one) =
        receive_answers i before after code (advance i e d) u v later l.distinct
          (l.held ∙ ap (Option.map (advance i e)) h) c.1 rest in
      (gone, ap (keep_if (for_stream i)) (sym joined) ∙ answers-append i o later l.answers one)
