-- ===== src/Http2Site/Refinement.antt =====
-- The server with all its connections (src/core/server.cpp, src/transport/session.cpp and src/main.cpp)
-- refines `serve`: each reply is submitted once, on the connection and the stream that asked.
use http2_server.Prelude.Int.{int_eq}
use http2_server.Prelude.{
  ℕ, ◌≡◌, refl, sym, ap, ◌∙◌, subst, some, List, [], ◌∷◌, ◌++◌, nat_eq, append-nil, map, replace_at,
}
use http2_server.Json.{JsonLib}
use http2_server.Registry.{Order}
use http2_server.HttpClient.{Beast}
use http2_server.ProxyHandler.{initialize}
use http2_server.Server.{Event, network, serve, initial}
use http2_server.Session.Connection.{Connection, new, start}
use http2_server.Http2Site.{
  Site, new_site, Move, accepted, completion, backend, sent_last, Outcome, going, thrown, dangling,
  session_at, passed, asked, accept, end_stream_of, happen, live, and_then, resume,
}
use http2_server.Http2Site.Changes.{
  requests_of, change-keeps, accept-keeps, start-parts, end_stream_of-parts,
}
use http2_server.Http2Site.Serving.{
  Served, handle_events-Handled, backend-Served, completion-Served,
}
use http2_server.Http2Site.Delivery.{submissions, responses_to}

and_then-going :
    (o : Outcome) (f : Site → Site) (t : Site)
    → and_then o f ≡ going t
    → (u : Site) × (o ≡ going u) × (f u ≡ t)
and_then-going (going s) f t h = (s, refl, cc)
and_then-going thrown f t h = cc
and_then-going dangling f t h = cc

pub resume-going :
    (J : JsonLib) (beast : Beast) (order : Order) (o : Outcome) (rest : Site → Outcome) (t : Site)
    → resume J beast order o rest ≡ going t
    → (u : Site) × (o ≡ going u) × (rest u ≡ going t)
resume-going J beast order (going s) rest t h = (s, refl, h)
resume-going J beast order thrown rest t h = cc
resume-going J beast order dangling rest t h = cc

module _ (J : JsonLib) (beast : Beast) (order : Order) where
  -- A change of the sessions alone that neither passes a request on nor submits a response.
  quiet-Served :
      (es : List Event) (s : Site) (xs : List Connection)
      → Served J beast order es s
      → ((m : ℕ)
          → (submissions (session_at m xs).calls ≡ submissions (session_at m s.sessions).calls)
            × ((session_at m xs).invoked ≡ (session_at m s.sessions).invoked))
      → Served J beast order (es ++ []) (record s { sessions = xs })
  quiet-Served es s xs v h =
      subst (λ l. Served J beast order l (record s { sessions = xs })) (sym (append-nil es))
        (record {
          ran = v.ran;
          asked_for = λ m. v.asked_for m ∙ sym (h m).1;
          submitted = λ m. (h m).0 ∙ v.submitted m;
        })

  pub happen-Served :
      (m : Move) (es : List Event) (s t : Site)
      → Served J beast order es s
      → happen J beast order m s ≡ going t
      → (fs : List Event) × Served J beast order (es ++ fs) t
  unfolding happen accept
  happen-Served (accepted use_ssl) es s t v h =
      let e : record s { sessions = s.sessions ++ start (new use_ssl) ∷ [] } ≡ t = cc in
      (
        [],
        subst (Served J beast order (es ++ [])) e (
            quiet-Served es s (s.sessions ++ start (new use_ssl) ∷ []) v (λ m. (
              accept-keeps (λ x. submissions x.calls) m s.sessions (start (new use_ssl))
                  (start-parts use_ssl).0,
              accept-keeps (λ x. x.invoked) m s.sessions (start (new use_ssl))
                  (start-parts use_ssl).1,
            ))),
      )
  happen-Served (completion n c) es s t v h =
      let x = session_at n s.sessions in
      let cs = passed x.waiting c x.streams in
      let (u, done, e) = and_then-going _ _ t h in
      (
        map (asked n) cs,
        subst (Served J beast order (es ++ map (asked n) cs)) e (
            completion-Served J beast order es n c s u v
              (handle_events-Handled J beast order (map (asked n) cs) s u done)),
      )
  happen-Served (backend k c) es s t v h =
      (network k c ∷ [], backend-Served J beast order es k c s t v h)
  happen-Served (sent_last n i) es s t v h =
      let y = end_stream_of (session_at n s.sessions) i in
      let kept = end_stream_of-parts (session_at n s.sessions) i in
      let e : record s { sessions = replace_at n y s.sessions } ≡ t = cc in
      (
        [],
        subst (Served J beast order (es ++ [])) e (
            quiet-Served es s (replace_at n y s.sessions) v (λ m. (
              change-keeps (λ x. submissions x.calls) n m s.sessions y (ap submissions kept.0),
              change-keeps (λ x. x.invoked) n m s.sessions y kept.1,
            ))),
      )

  live-Served :
      (ms : List Move) (es : List Event) (s t : Site)
      → Served J beast order es s
      → live J beast order s ms ≡ going t
      → (fs : List Event) × Served J beast order fs t
  unfolding live
  live-Served [] es s t v h = let e : s ≡ t = cc in (es, subst (Served J beast order es) e v)
  live-Served (m ∷ ms) es s t v h =
      let (u, first, rest) = resume-going J beast order (happen J beast order m s) _ t h in
      let (fs, w) = happen-Served m es s u v first in live-Served ms (es ++ fs) u t w rest

  pub new_site-Served : Served J beast order [] new_site
  unfolding initialize serve new
  new_site-Served = record { ran = refl; asked_for = λ n. refl; submitted = λ n. refl }

  -- From the start, with any connections whose operations and calls complete in any order, if no
  -- exception escapes and no reply finds its session gone: what the handlers did is what `serve` does
  -- for some events in which each session's requests are those that it passed on, in their order; and
  -- each session has been told to submit the replies to it, each once and in their order.
  pub live_served :
      (ms : List Move) (t : Site)
      → live J beast order new_site ms ≡ going t
      → (es : List Event) × (serve J beast order initial es ≡ some t.world)
        × ((n : ℕ) → requests_of n es ≡ (session_at n t.sessions).invoked)
        × ((n : ℕ) → submissions (session_at n t.sessions).calls ≡ responses_to n t.world.sent)
  live_served ms t h =
      let (es, v) = live-Served ms [] new_site t new_site-Served h in
      (es, v.ran, v.asked_for, v.submitted)
