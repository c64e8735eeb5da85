-- ===== src/Http2Site/Answers.antt =====
-- How often the streams of the server's connections are answered (src/core/server.cpp,
-- src/transport/session.cpp and src/main.cpp): what a session submits is counted against what it has
-- passed on.
use http2_server.Nghttp2.{Nghttp2Call, submit_headers, submit_response}
use http2_server.Common.{HttpResponse}
use http2_server.World.Answers.{sent_to}
use http2_server.Prelude.Int.{int_eq}
use http2_server.Prelude.{
  ℕ, ◌+◌, ◌≤◌, ◌≡◌, refl, sym, ap, ◌∙◌, List, [], ◌∷◌, ◌++◌, ◌==◌, nat_eq, if◌then◌else◌, All,
  arith,
}
use http2_server.Prelude.Int.{ℤ}
use http2_server.Json.{JsonLib}
use http2_server.Registry.{Order}
use http2_server.HttpClient.{Beast, finished}
use http2_server.World.{Reply}
use http2_server.Server.{Event, request, network}
use http2_server.Server.Answers.{requests_for, serve_never_more, serve_settled}
use http2_server.Session.{Invocation, send_response}
use http2_server.Http2Site.{Site, new_site, Move, going, session_at, live}
use http2_server.Http2Site.Changes.{requests_of}
use http2_server.Http2Site.Delivery.{submissions, responses_to}
use http2_server.Http2Site.Refinement.{live_served}

-- How often a list of calls submits a response on a stream.
abbrev pub submits_on : ℤ → Nghttp2Call → ℕ
submits_on j (submit_headers i nvs) = if i == j then 1 else 0
submits_on j (submit_response i nvs body) = if i == j then 1 else 0
submits_on j _ = 0

unfoldable pub submitted_on : ℤ → List Nghttp2Call → ℕ
submitted_on j [] = 0
submitted_on j (c ∷ cs) = submits_on j c + submitted_on j cs

-- How often a session has passed a request of a stream on.
unfoldable pub passed_on : ℤ → List Invocation → ℕ
passed_on j [] = 0
passed_on j (c ∷ cs) = (if c.stream_id == j then 1 else 0) + passed_on j cs

submitted_on-append :
    (j : ℤ) (cs ds : List Nghttp2Call)
    → submitted_on j (cs ++ ds) ≡ submitted_on j cs + submitted_on j ds
unfolding submitted_on
submitted_on-append j [] ds = omega arith
submitted_on-append j (c ∷ cs) ds = omega (arith, submitted_on-append j cs ds)

submitted_on-submissions :
    (j : ℤ) (cs : List Nghttp2Call) → submitted_on j (submissions cs) ≡ submitted_on j cs
unfolding submitted_on
submitted_on-submissions j [] = refl
submitted_on-submissions j (c ∷ cs) = ground (arith, submitted_on-submissions j cs)

submitted_on-send_response :
    (j i : ℤ) (r : HttpResponse) → submitted_on j (send_response i r) ≡ (if i == j then 1 else 0)
unfolding submitted_on send_response
submitted_on-send_response j i r = ground arith

submitted_on-responses_to :
    (n : ℕ) (j : ℤ) (rs : List Reply) → submitted_on j (responses_to n rs) ≡ sent_to n j rs
unfolding submitted_on sent_to
submitted_on-responses_to n j [] = refl
submitted_on-responses_to n j (r ∷ rs) = ground (
  arith,
  submitted_on-append j (send_response r.stream_id r.response) (responses_to n rs),
  submitted_on-send_response j r.stream_id r.response,
  submitted_on-responses_to n j rs,
)

passed_on-requests_of :
    (n : ℕ) (j : ℤ) (es : List Event) → passed_on j (requests_of n es) ≡ requests_for n j es
unfolding passed_on requests_for
passed_on-requests_of n j [] = refl
passed_on-requests_of n j (request method path body i s ∷ es) =
    ground (arith, passed_on-requests_of n j es)
passed_on-requests_of n j (network k c ∷ es) = passed_on-requests_of n j es

module _ (J : JsonLib) (beast : Beast) (order : Order) (t : Site) where
  pub submitted_eq :
      (n : ℕ) (j : ℤ)
      → submissions (session_at n t.sessions).calls ≡ responses_to n t.world.sent
      → submitted_on j (session_at n t.sessions).calls ≡ sent_to n j t.world.sent
  submitted_eq n j h =
      sym (submitted_on-submissions j (session_at n t.sessions).calls)
      ∙ ap (submitted_on j) h
      ∙ submitted_on-responses_to n j t.world.sent

  pub both_counts :
      (n : ℕ) (j : ℤ) (es : List Event)
      → requests_of n es ≡ (session_at n t.sessions).invoked
      → requests_for n j es ≡ passed_on j (session_at n t.sessions).invoked
  both_counts n j es h = sym (passed_on-requests_of n j es) ∙ ap (passed_on j) h

module _ (J : JsonLib) (beast : Beast) (order : Order) (ms : List Move) (t : Site) where
  -- From the start, with any connections whose operations and calls complete in any order, if no
  -- exception escapes and no reply finds its session gone: no stream of any connection has had more
  -- responses submitted on it than its session has passed requests of it on.
  live_never_more :
      (n : ℕ) (j : ℤ)
      → live J beast order new_site ms ≡ going t
      → submitted_on j (session_at n t.sessions).calls
        ≤ passed_on j (session_at n t.sessions).invoked
  live_never_more n j h =
      let (es, ran, asked_for, submitted) = live_served J beast order ms t h in
      omega (
        arith,
        submitted_eq J beast order t n j (submitted n),
        both_counts J beast order t n j es (asked_for n),
        serve_never_more J beast order es t.world n j ran,
      )

  -- From the start, with any connections whose operations and calls complete in any order, if no
  -- exception escapes and no reply finds its session gone, once no call to a backend is under way:
  -- every stream of every connection has had exactly as many responses submitted on it as its session
  -- has passed requests of it on.
  pub live_answers :
      (n : ℕ) (j : ℤ)
      → live J beast order new_site ms ≡ going t
      → All (λ k. k.phase ≡ finished) t.world.calls
      → submitted_on j (session_at n t.sessions).calls
        ≡ passed_on j (session_at n t.sessions).invoked
  live_answers n j h settled =
      let (es, ran, asked_for, submitted) = live_served J beast order ms t h in
      submitted_eq J beast order t n j (submitted n)
      ∙ serve_settled J beast order es t.world n j ran settled
      ∙ both_counts J beast order t n j es (asked_for n)
