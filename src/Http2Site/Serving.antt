-- ===== src/Http2Site/Serving.antt =====
-- The server with all its connections (src/core/server.cpp, src/transport/session.cpp and src/main.cpp)
-- does with the requests that its sessions pass on what `serve` does, and submits what `serve` replies.
use mathlib.Core.Option
use http2_server.Prelude.{
  member_at-replace_at_ne, ℕ, ◌≡◌, sym, ap, ◌∙◌, subst, Option, none, some, List, [], ◌∷◌, ◌++◌,
  nat_eq, ℕ_discrete, append-nil, map, length, drop, drop-append, replace_at, Option-cases, inl,
  inr,
}
use http2_server.Json.{JsonLib}
use http2_server.Registry.{Order}
use http2_server.HttpClient
use http2_server.HttpClient.{Beast}
use http2_server.World.{World, Reply}
use http2_server.ProxyHandler.Relay.{network_event_lem, reply_of}
use http2_server.ProxyHandler.{complete_at}
use http2_server.Server.{Event, network, serve, initial, on_event}
use http2_server.Server.Answers.{resume-some}
use http2_server.Server.Appends.{serve-Extends}
use http2_server.Session.Connection.{Connection, Completion, on_completion}
use http2_server.Http2Site.{
  Site, backend, going, thrown, session_at, known, deliver, passed, asked, change_session,
  handle_events, happen, delivered,
}
use http2_server.Http2Site.Changes.{
  requests_of, requests_of-append, requests_of-asked, requests_of-others, asked-IsFrom,
  on_completion-Completed, change-keeps, change-own, new_stays, as_before,
}
use http2_server.Http2Site.Delivery.{
  submissions, responses_to, responses_to-append, deliver-Sent, Sent,
}

-- What the server has done: the events, and for each session what it passed on and submitted.
pub record Served (J : JsonLib) (beast : Beast) (order : Order) (es : List Event) (s : Site)
    : Type 0 where
  pub ran : serve J beast order initial es ≡ some s.world
  pub asked_for : (n : ℕ) → requests_of n es ≡ (session_at n s.sessions).invoked
  pub submitted :
      (n : ℕ) → submissions (session_at n s.sessions).calls ≡ responses_to n s.world.sent

module _ (J : JsonLib) (beast : Beast) (order : Order) where
  serve-append :
      (es fs : List Event) (w v : World)
      → serve J beast order w es ≡ some v
      → serve J beast order w (es ++ fs) ≡ serve J beast order v fs
  unfolding serve
  serve-append [] fs w v h = ap (λ x. serve J beast order x fs) (Option.some-injective w v h)
  serve-append (e ∷ es) fs w v h =
      let (returned, rest) =
        resume-some (on_event J beast order e w).0 (on_event J beast order e w).1
          (λ next. serve J beast order next es) h in
      rw returned (serve-append es fs (on_event J beast order e w).1 v rest)

-- The events have been handled, and what was replied has been delivered.
pub record Handled (J : JsonLib) (beast : Beast) (order : Order) (es : List Event) (s t : Site)
    : Type 0 where
  ran : serve J beast order s.world es ≡ some t.world
  given : deliver (drop (length s.world.sent) t.world.sent) s.sessions ≡ some t.sessions

delivered-going :
    (w : World) (o : Option (List Connection)) (t : Site)
    → delivered w o ≡ going t
    → (w ≡ t.world) × (o ≡ some t.sessions)
delivered-going w none t h = cc
delivered-going w (some xs) t h =
    let e : record { world = w; sessions = xs } ≡ t = cc in
    (ap (λ (s : Site). s.world) e, ap (λ (s : Site). some s.sessions) e)

module _ (J : JsonLib) (beast : Beast) (order : Order) where
  pub handle_events-Handled :
      (es : List Event) (s t : Site)
      → handle_events J beast order es s ≡ going t
      → Handled J beast order es s t
  unfolding handle_events
  handle_events-Handled es s t h = elim (Option-cases (serve J beast order s.world es)) [
    | inl e ↦ let q : thrown ≡ going t = rw e at h in cc
    | inr (w, e) ↦
        let (same, given) = delivered-going w _ t (rw e at h) in
        record {
          ran = e ∙ ap some same;
          given =
              subst
                (λ (v : World).
                  deliver (drop (length s.world.sent) v.sent) s.sessions ≡ some t.sessions)
                same given;
        }
  ]

  -- Events that only add to what has been sent.
  Handled-Sent :
      (es : List Event) (s t : Site) (added : List Reply) (n : ℕ)
      → Handled J beast order es s t
      → t.world.sent ≡ s.world.sent ++ added
      → Sent n added (session_at n s.sessions) (session_at n t.sessions)
  Handled-Sent es s t added n h e = deliver-Sent n added s.sessions t.sessions (
      ap (λ x. deliver x s.sessions)
        (sym (ap (drop (length s.world.sent)) e ∙ drop-append s.world.sent added))
      ∙ h.given)

  Handled-submitted :
      (es : List Event) (s t : Site) (added : List Reply) (n : ℕ)
      → Handled J beast order es s t
      → t.world.sent ≡ s.world.sent ++ added
      → submissions (session_at n s.sessions).calls ≡ responses_to n s.world.sent
      → submissions (session_at n t.sessions).calls ≡ responses_to n t.world.sent
  Handled-submitted es s t added n h e q =
      (Handled-Sent es s t added n h e).calls
      ∙ ap (λ x. x ++ responses_to n added) q
      ∙ sym (responses_to-append n s.world.sent added)
      ∙ ap (responses_to n) (sym e)

  backend_sent :
      (k : ℕ) (c : HttpClient.Completion) (s t : Site)
      → serve J beast order s.world (network k c ∷ []) ≡ some t.world
      → t.world.sent ≡ s.world.sent ++ reply_of (complete_at k c s.world.calls).1
  unfolding serve on_event
  backend_sent k c s t h = sym (
      ap (λ (w : World). w.sent)
        (Option.some-injective _ _ (rw (network_event_lem k c s.world) at h)))

  -- A completion for a call of `http_client_`.
  pub backend-Served :
      (es : List Event) (k : ℕ) (c : HttpClient.Completion) (s t : Site)
      → Served J beast order es s
      → happen J beast order (backend k c) s ≡ going t
      → Served J beast order (es ++ network k c ∷ []) t
  unfolding happen
  backend-Served es k c s t v h =
      let handled = handle_events-Handled (network k c ∷ []) s t h in
      let e = backend_sent k c s t handled.ran in
      record {
        ran = serve-append J beast order es _ initial s.world v.ran ∙ handled.ran;
        asked_for = λ n.
            requests_of-append n es (network k c ∷ [])
            ∙ append-nil (requests_of n es)
            ∙ v.asked_for n
            ∙ sym (Handled-Sent _ s t _ n handled e).invoked;
        submitted = λ n. Handled-submitted _ s t _ n handled e (v.submitted n);
      }

  completion_asked :
      (es : List Event) (n m : ℕ) (c : Completion) (s u : Site)
      → Served J beast order es s
      → let x = session_at n s.sessions in
        let fs = map (asked n) (passed x.waiting c x.streams) in
        Handled J beast order fs s u
        → requests_of m (es ++ fs)
          ≡ (session_at m (
              replace_at n
                (on_completion (session_at n u.sessions).waiting c (session_at n u.sessions))
                u.sessions)).invoked
  completion_asked es n m c s u v handled =
      let x = session_at n s.sessions in
      let cs = passed x.waiting c x.streams in
      let y = session_at n u.sessions in
      let z = on_completion y.waiting c y in
      let new = serve-Extends J beast order n _ s.world u.world (asked-IsFrom n cs) handled.ran in
      elim (ℕ_discrete n m) [
        | no e ↦
            requests_of-append m es (map (asked n) cs)
            ∙ ap (λ t. requests_of m es ++ t) (requests_of-others n m cs e)
            ∙ append-nil (requests_of m es)
            ∙ v.asked_for m
            ∙ sym (Handled-Sent _ s u new.added m handled new.extended).invoked
            ∙ sym (ap (λ o. (known o).invoked) (member_at-replace_at_ne n m u.sessions z e))
        | yes e ↦
            subst
              (λ k.
                requests_of k (es ++ map (asked n) cs)
                ≡ (session_at k (replace_at n z u.sessions)).invoked)
              e
              (requests_of-append n es (map (asked n) cs)
                ∙ ap (λ t. requests_of n es ++ t) (requests_of-asked n cs)
                ∙ ap (λ t. t ++ cs) (v.asked_for n)
                ∙ sym (
                    as_before x y n new.added c
                      (Handled-Sent _ s u new.added n handled new.extended))
                ∙ sym (on_completion-Completed y.waiting c y).1
                ∙ sym (
                    ap (λ (t : Connection). t.invoked)
                      (change-own (λ t. on_completion t.waiting c t) n u.sessions (new_stays c))))
      ]

  -- Requests of one session, passed on as an operation of it completes.
  pub completion-Served :
      (es : List Event) (n : ℕ) (c : Completion) (s u : Site)
      → Served J beast order es s
      → let x = session_at n s.sessions in
        let fs = map (asked n) (passed x.waiting c x.streams) in
        Handled J beast order fs s u
        → Served J beast order (es ++ fs) (change_session n (λ y. on_completion y.waiting c y) u)
  completion-Served es n c s u v handled =
      let x = session_at n s.sessions in
      let cs = passed x.waiting c x.streams in
      let y = session_at n u.sessions in
      let new = serve-Extends J beast order n _ s.world u.world (asked-IsFrom n cs) handled.ran in
      let done = on_completion-Completed y.waiting c y in
      record {
        ran = serve-append J beast order es _ initial s.world v.ran ∙ handled.ran;
        asked_for = λ m. completion_asked es n m c s u v handled;
        submitted = λ m.
            change-keeps (λ z. submissions z.calls) n m u.sessions _ done.0
            ∙ Handled-submitted _ s u new.added m handled new.extended (v.submitted m);
      }
