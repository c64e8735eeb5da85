-- ===== src/Http2Site/Survival.antt =====
-- When no reply finds its session destroyed (src/core/server.cpp, src/transport/session.cpp and
-- src/main.cpp): the replies that are under way are counted by what the sessions have passed on and
-- submitted.
use http2_server.Prelude.{
  none, map, ℕ, ◌+◌, ◌≤◌, ◌≡◌, ◌≢◌, refl, ap, ◌∙◌, Option, some, List, [], ◌∷◌, ◌++◌, false,
  eq_refl, nat_eq, arith,
}
use http2_server.Prelude.Int.{ℤ, int_eq, pos}
use http2_server.Prelude.Text.{codes, text_eq}
use http2_server.RequestHandler.{create_error_response}
use http2_server.Session.Connection.{Connection}
use http2_server.Json.{JsonLib}
use http2_server.Registry.{Order}
use http2_server.HttpClient
use http2_server.HttpClient.{Beast}
use http2_server.World.{World, Captured}
use http2_server.World.Answers.{sent_to, sent_to-append, pending_for}
use http2_server.ProxyHandler.{complete_at, network_event}
use http2_server.ProxyHandler.Network.{network_event_answers}
use http2_server.ProxyHandler.Relay.{network_event_lem, reply_of, reply_to}
use http2_server.Server.{Event}
use http2_server.Server.Answers.{from_start, AllSent, serve_survives}
use http2_server.Http2Site.{
  Site, new_site, Move, accepted, completion, backend, sent_last, Outcome, going, thrown, dangling,
  session_at, has_session, happen, live, resume, passed, asked, delivered, and_then, handle_events,
}
use http2_server.Http2Site.Dangling.{Hits, happen-dangling_iff}
use http2_server.Http2Site.Serving.{Served}
use http2_server.Http2Site.Refinement.{happen-Served, new_site-Served}
use http2_server.Http2Site.Answers.{submitted_on, passed_on, submitted_eq, both_counts}

-- Every session that is gone has had a response submitted for each request that it passed on.
abbrev pub Settled : Site → Type 0
Settled s =
    (n : ℕ) (j : ℤ)
    → has_session n s.sessions ≡ false
    → passed_on j (session_at n s.sessions).invoked ≡ submitted_on j (session_at n s.sessions).calls

-- A reply counts for its own stream.
sent_to-reply :
    (c : Captured) (o : HttpClient.Outcome) → sent_to c.sender c.stream_id (reply_to c o ∷ []) ≡ 1
unfolding sent_to
sent_to-reply c o = rw (eq_refl c.sender, eq_refl c.stream_id) (omega arith)

-- A call that ends was under way.
ends-pending :
    (k : ℕ) (c : HttpClient.Completion) (w : World) (d : Captured) (o : HttpClient.Outcome)
    → (complete_at k c w.calls).1 ≡ some (d, o)
    → 1 ≤ pending_for d.sender d.stream_id w.calls
ends-pending k c w d o h =
    let sent : (network_event k c w).1.sent ≡ w.sent ++ reply_to d o ∷ [] =
      ap (λ (x : Option (Unit {0}) × World). x.1.sent) (network_event_lem k c w)
      ∙ ap (λ x. w.sent ++ reply_of x) h in
    omega (
      arith,
      (network_event_answers k c w d.sender d.stream_id).1,
      ap (sent_to d.sender d.stream_id) sent,
      sent_to-append d.sender d.stream_id w.sent (reply_to d o ∷ []),
      sent_to-reply d o,
    )

module _ (J : JsonLib) (beast : Beast) (order : Order) where
  -- What is under way for a stream is what its session has passed on and not submitted.
  pending_lem :
      (es : List Event) (s : Site) (n : ℕ) (j : ℤ)
      → Served J beast order es s
      → submitted_on j (session_at n s.sessions).calls + pending_for n j s.world.calls
        ≡ passed_on j (session_at n s.sessions).invoked
  pending_lem es s n j v = omega (
    arith,
    from_start J beast order es s.world n j v.ran,
    submitted_eq J beast order s n j (v.submitted n),
    both_counts J beast order s n j es (v.asked_for n),
  )

  Hits-never :
      (m : Move) (es : List Event) (s : Site) → Served J beast order es s → Settled s → ¬ Hits m s
  Hits-never (accepted use_ssl) es s v h hits = absurd hits
  Hits-never (completion n c) es s v h hits = absurd hits
  Hits-never (sent_last n i) es s v h hits = absurd hits
  Hits-never (backend k c) es s v h ((d, o), called, gone) = omega (
    arith,
    ends-pending k c s.world d o called,
    pending_lem es s d.sender d.stream_id v,
    h d.sender d.stream_id gone,
  )

  -- Every site that a life reaches is settled.
  abbrev pub SettledAlong : Outcome → List Move → Type 0
  SettledAlong thrown ms = Unit
  SettledAlong dangling ms = Unit
  SettledAlong (going s) [] = Settled s
  SettledAlong (going s) (m ∷ ms) = Settled s × SettledAlong (happen J beast order m s) ms

  after_move :
      (m : Move) (ms : List Move) (es : List Event) (s : Site) (o : Outcome)
      → happen J beast order m s ≡ o
      → Served J beast order es s
      → Settled s
      → SettledAlong o ms
      → ((t : Site) (fs : List Event)
          → Served J beast order fs t
          → SettledAlong (going t) ms
          → ¬ (live J beast order t ms ≡ dangling))
      → ¬ (resume J beast order o (λ next. live J beast order next ms) ≡ dangling)
  after_move m ms es s (going t) e v here along rest h =
      let (fs, w) = happen-Served J beast order m es s t v e in rest t (es ++ fs) w along h
  after_move m ms es s thrown e v here along rest h = cc
  after_move m ms es s dangling e v here along rest h =
      Hits-never m es s v here ((happen-dangling_iff J beast order m s).0 e)

  survives :
      (ms : List Move) (s : Site) (es : List Event)
      → Served J beast order es s
      → SettledAlong (going s) ms
      → ¬ (live J beast order s ms ≡ dangling)
  unfolding live
  survives [] s es v along h = cc
  survives (m ∷ ms) s es v along h =
      after_move m ms es s (happen J beast order m s) refl v along.0 along.1 (survives ms) h

  -- From the start, if at every site that the server reaches each session that is gone has had a
  -- response submitted for every request that it passed on: no reply finds its session gone.
  live_survives :
      (ms : List Move)
      → SettledAlong (going new_site) ms
      → live J beast order new_site ms ≢ dangling
  live_survives ms along h = survives ms new_site [] (new_site-Served J beast order) along h

delivered-thrown : (w : World) (o : Option (List Connection)) → delivered w o ≢ thrown
delivered-thrown w none h = cc
delivered-thrown w (some xs) h = cc

and_then-thrown : (o : Outcome) (f : Site → Site) → and_then o f ≡ thrown → o ≡ thrown
and_then-thrown (going s) f h = cc
and_then-thrown thrown f h = refl
and_then-thrown dangling f h = cc

outcome_cases : (o : Outcome) → o ≢ thrown → o ≢ dangling → (t : Site) × (o ≡ going t)
outcome_cases (going t) h k = (t, refl)
outcome_cases thrown h k = absurd (h refl)
outcome_cases dangling h k = absurd (k refl)

-- The library can print the program's own error object.
abbrev pub Prints : JsonLib → Type 0
Prints J = J.dump (create_error_response J (pos 500) (codes "Internal server error")) ≢ none

module _ (J : JsonLib) (beast : Beast) (order : Order) where
  -- Each request that the move passes on can be sent to the backend that is found for it.
  abbrev pub Sendable : Move → Site → Type 0
  Sendable (completion n c) s =
      let x = session_at n s.sessions in
      AllSent J beast order (map (asked n) (passed x.waiting c x.streams)) s.world
  Sendable (accepted use_ssl) s = Unit
  Sendable (backend k c) s = Unit
  Sendable (sent_last n i) s = Unit

  abbrev pub SendableAlong : Outcome → List Move → Type 0
  SendableAlong thrown ms = Unit
  SendableAlong dangling ms = Unit
  SendableAlong (going s) [] = Unit
  SendableAlong (going s) (m ∷ ms) = Sendable m s × SendableAlong (happen J beast order m s) ms

  handle_events-returns :
      (es : List Event) (s : Site)
      → Prints J
      → AllSent J beast order es s.world
      → handle_events J beast order es s ≢ thrown
  unfolding handle_events
  handle_events-returns es s d verbs h =
      let (w, e) = serve_survives J beast order es s.world d verbs in
      delivered-thrown w _ (rw e at h)

  happen-returns :
      (m : Move) (s : Site) → Prints J → Sendable m s → happen J beast order m s ≢ thrown
  unfolding happen
  happen-returns (accepted use_ssl) s d verbs h = cc
  happen-returns (completion n c) s d verbs h =
      handle_events-returns _ s d verbs (and_then-thrown _ _ h)
  happen-returns (backend k c) s d verbs h = handle_events-returns _ s d (tt, tt) h
  happen-returns (sent_last n i) s d verbs h = cc

  after_return :
      (ms : List Move) (o : Outcome)
      → o ≢ thrown
      → SendableAlong o ms
      → ((t : Site) → SendableAlong (going t) ms → live J beast order t ms ≢ thrown)
      → resume J beast order o (λ next. live J beast order next ms) ≢ thrown
  after_return ms (going t) e along rest h = rest t along h
  after_return ms thrown e along rest h = e refl
  after_return ms dangling e along rest h = cc

  live-returns :
      (ms : List Move) (s : Site)
      → Prints J
      → SendableAlong (going s) ms
      → live J beast order s ms ≢ thrown
  unfolding live
  live-returns [] s d along h = cc
  live-returns (m ∷ ms) s d along h =
      after_return ms (happen J beast order m s) (happen-returns m s d along.0) along.1
        (λ t. live-returns ms t d) h

  -- From the start, the server gets through any moves if the library can print the program's own
  -- error object; if each request that is passed on, and for which a backend is then found, has a verb
  -- of Boost.Beast as its method, and not TRACE with a body, and a backend's host shorter than 65534
  -- bytes; and if, at every site that is reached, each session that is gone has had a response
  -- submitted for every request that it passed on.
  pub live_goes_on :
      (ms : List Move)
      → Prints J
      → SendableAlong (going new_site) ms
      → SettledAlong J beast order (going new_site) ms
      → (t : Site) × (live J beast order new_site ms ≡ going t)
  live_goes_on ms d verbs settled =
      outcome_cases _ (live-returns ms new_site d verbs) (live_survives J beast order ms settled)
