-- ===== src/Http2Site/Lives.antt =====
-- When a whole life of the server (src/core/server.cpp, src/transport/session.cpp and src/main.cpp)
-- comes to a reply through a session that has been destroyed.
use http2_server.Prelude.{◌≡◌, refl, ap, ◌∙◌, sym, subst, List, [], ◌∷◌, ◌++◌, ◌↔◌}
use http2_server.Json.{JsonLib}
use http2_server.Registry.{Order}
use http2_server.HttpClient.{Beast}
use http2_server.Http2Site.{Site, Move, Outcome, going, thrown, dangling, happen, live, resume}
use http2_server.Http2Site.Refinement.{resume-going}
use http2_server.Http2Site.Dangling.{Hits, happen-dangling_iff}

module _ (J : JsonLib) (beast : Beast) (order : Order) where
  -- At some move that is reached, a call of `http_client_` ends for a session that is gone.
  abbrev pub HitsWithin : Site → List Move → Type 0
  HitsWithin s ms =
      (before : List Move) × (m : Move) × (after : List Move) × (t : Site) × (ms
        ≡ before ++ m ∷ after)
      × (live J beast order s before ≡ going t)
      × Hits m t

  -- What becomes of the first move decides where the rest is looked at.
  first_move :
      (m : Move) (ms : List Move) (s : Site) (o : Outcome)
      → happen J beast order m s ≡ o
      → resume J beast order o (λ next. live J beast order next ms) ≡ dangling
      → ((t : Site) → live J beast order t ms ≡ dangling → HitsWithin t ms)
      → HitsWithin s (m ∷ ms)
  unfolding live
  first_move m ms s (going t) e h rest =
      let (before, n, after, u, split, reached, hits) = rest t h in
      (m ∷ before, n, after, u, ap (λ l. m ∷ l) split, rw e reached, hits)
  first_move m ms s thrown e h rest = cc
  first_move m ms s dangling e h rest =
      ([], m, ms, s, refl, refl, (happen-dangling_iff J beast order m s).0 e)

  live-HitsWithin :
      (ms : List Move) (s : Site) → live J beast order s ms ≡ dangling → HitsWithin s ms
  unfolding live
  live-HitsWithin [] s h = cc
  live-HitsWithin (m ∷ ms) s h =
      first_move m ms s (happen J beast order m s) refl h (live-HitsWithin ms)

  reaches-dangling :
      (before : List Move) (m : Move) (after : List Move) (s t : Site)
      → live J beast order s before ≡ going t
      → Hits m t
      → live J beast order s (before ++ m ∷ after) ≡ dangling
  unfolding live
  reaches-dangling [] m after s t h hits =
      let e : s ≡ t = cc in
      rw ((happen-dangling_iff J beast order m s).1 (subst (Hits m) (sym e) hits)) refl
  reaches-dangling (x ∷ before) m after s t h hits =
      let (u, first, rest) =
        resume-going J beast order (happen J beast order x s)
          (λ next. live J beast order next before) t h in
      rw first (reaches-dangling before m after u t rest hits)

  -- A life of the server with any moves comes to a reply through a session that is gone exactly when,
  -- at some move that it reaches, a call of `http_client_` ends for a session that is not reading.
  pub live-dangling_iff :
      (ms : List Move) (s : Site) → (live J beast order s ms ≡ dangling) ↔ HitsWithin s ms
  live-dangling_iff ms s = (
    live-HitsWithin ms s,
    λ (before, m, after, t, split, reached, hits).
        ap (live J beast order s) split ∙ reaches-dangling before m after s t reached hits,
  )
