-- ===== src/Http2Site/Dangling.antt =====
-- When a reply finds its session destroyed: `sender` (src/transport/session.cpp) captures the session by
-- a raw pointer, and a call of `http_client_` may end after the connection.
use mathlib.Core.Option
use http2_server.Prelude.Int.{int_eq}
use http2_server.Prelude.{
  ℕ, ◌↔◌, Bool-cases, ◌≡◌, refl, sym, ap, ◌∙◌, Option, none, some, List, [], ◌∷◌, ◌++◌, Bool, true,
  false, nat_eq, append-nil, map, length, drop, drop-append, replace_at, Option-cases, inl, inr,
}
use http2_server.Json.{JsonLib}
use http2_server.Registry.{Order}
use http2_server.HttpClient
use http2_server.HttpClient.{Beast, finished}
use http2_server.World.{World, Captured}
use http2_server.ProxyHandler.Relay.{network_event_lem, reply_of, complete_at-length}
use http2_server.HttpClient.Chain.{complete-reading}
use http2_server.ProxyHandler.{complete_at}
use http2_server.Server.{Event, network, serve, on_event}
use http2_server.Server.Appends.{serve-Extends}
use http2_server.Session.{Streams, Invocation, send_response}
use http2_server.Session.Connection.{
  Connection, Completion, Waiting, unstarted, handshaking, reading, closed, read, on_completion,
  on_read,
}
use http2_server.Http2Site.{
  has_session, Site, Move, accepted, completion, backend, sent_last, Outcome, going, thrown,
  dangling, session_at, is_reading, deliver, passed, asked, change_session, handle_events, happen,
  live, and_then, delivered, resume,
}
use http2_server.Http2Site.Changes.{asked-IsFrom}
use http2_server.Http2Site.Delivery.{deliver-some, session_at-replace_at}

-- The move is the end of a call of `http_client_` whose session is gone.
abbrev pub Hits : Move → Site → Type 0
Hits (backend k c) s =
    (d : Captured × HttpClient.Outcome) × ((complete_at k c s.world.calls).1 ≡ some d)
    × (has_session d.0.sender s.sessions ≡ false)
Hits (accepted use_ssl) s = ⊥
Hits (completion n c) s = ⊥
Hits (sent_last n i) s = ⊥

-- A session that is not reading passes nothing on.
passed_idle :
    (waiting : Waiting) (c : Completion) (streams : Streams)
    → is_reading waiting ≡ false
    → passed waiting c streams ≡ []
passed_idle unstarted c streams h = refl
passed_idle handshaking c streams h = refl
passed_idle closed c streams h = refl
passed_idle reading c streams h = cc

passed_failed :
    (waiting : Waiting) (events : List http2_server.Session.Event) (refused : Bool)
    (streams : Streams)
    → passed waiting (read true events refused) streams ≡ []
passed_failed unstarted events refused streams = refl
passed_failed handshaking events refused streams = refl
passed_failed reading events refused streams = refl
passed_failed closed events refused streams = refl

-- A failed read ends the session.
read_failed :
    (waiting : Waiting) (events : List http2_server.Session.Event) (refused : Bool) (x : Connection)
    → is_reading waiting ≡ true
    → is_reading (on_completion waiting (read true events refused) x).waiting ≡ false
unfolding on_completion on_read
read_failed unstarted events refused x h = cc
read_failed handshaking events refused x h = cc
read_failed closed events refused x h = cc
read_failed reading events refused x h = refl

delivered-dangling :
    (w : World) (o : Option (List Connection)) → delivered w o ≡ dangling → o ≡ none
delivered-dangling w none h = refl
delivered-dangling w (some xs) h = cc

and_then-dangling : (o : Outcome) (f : Site → Site) → and_then o f ≡ dangling → o ≡ dangling
and_then-dangling (going s) f h = cc
and_then-dangling thrown f h = cc
and_then-dangling dangling f h = refl

deliver-reply_of :
    (called : Option (Captured × HttpClient.Outcome)) (xs : List Connection)
    → deliver (reply_of called) xs ≡ none
    → (d : Captured × HttpClient.Outcome) × (called ≡ some d) × (has_session d.0.sender xs ≡ false)
unfolding deliver
deliver-reply_of none xs h = cc
deliver-reply_of (some (c, o)) xs h = elim (Bool-cases (has_session c.sender xs)) [
  | inl e ↦ let q : some (replace_at c.sender _ xs) ≡ none = rw e at h in cc
  | inr e ↦ ((c, o), refl, e)
]

module _ (J : JsonLib) (beast : Beast) (order : Order) where
  handle_events-dangling :
      (es : List Event) (s : Site)
      → handle_events J beast order es s ≡ dangling
      → (w : World) × (serve J beast order s.world es ≡ some w)
        × (deliver (drop (length s.world.sent) w.sent) s.sessions ≡ none)
  unfolding handle_events
  handle_events-dangling es s h = elim (Option-cases (serve J beast order s.world es)) [
    | inl e ↦ let q : thrown ≡ dangling = rw e at h in cc
    | inr (w, e) ↦ (w, e, delivered-dangling w _ (rw e at h))
  ]

  no_events : (s : Site) → handle_events J beast order [] s ≡ going s
  unfolding handle_events serve deliver
  no_events s =
      let none_new : drop (length s.world.sent) s.world.sent ≡ [] =
        ap (drop (length s.world.sent)) (sym (append-nil s.world.sent))
        ∙ drop-append s.world.sent [] in
      rw none_new refl

  -- The sender of a request that is handled at once is always there.
  completion-safe :
      (n : ℕ) (c : Completion) (s : Site)
      → let x = session_at n s.sessions in
        ¬ (handle_events J beast order (map (asked n) (passed x.waiting c x.streams)) s ≡ dangling)
  completion-safe n c s h =
      let x = session_at n s.sessions in
      let cs = passed x.waiting c x.streams in
      let (w, ran, lost) = handle_events-dangling (map (asked n) cs) s h in
      let new = serve-Extends J beast order n _ s.world w (asked-IsFrom n cs) ran in
      let added =
        ap (drop (length s.world.sent)) new.extended ∙ drop-append s.world.sent new.added in
      let missing : deliver new.added s.sessions ≡ none = rw added at lost in
      elim (Bool-cases (has_session n s.sessions)) [
        | inl e ↦ let (ys, q) = deliver-some n new.added s.sessions new.own e in cc
        | inr e ↦
            let q : going s ≡ dangling =
              sym (no_events s)
              ∙ ap (λ fs. handle_events J beast order (map (asked n) fs) s)
                  (sym (passed_idle x.waiting c x.streams e))
              ∙ h in
            cc
      ]

  network_sent :
      (k : ℕ) (c : HttpClient.Completion) (s : Site)
      → (w : World) × (serve J beast order s.world (network k c ∷ []) ≡ some w)
        × (drop (length s.world.sent) w.sent ≡ reply_of (complete_at k c s.world.calls).1)
  unfolding serve on_event
  network_sent k c s = (
    record s.world {
      calls = (complete_at k c s.world.calls).0;
      sent = s.world.sent ++ reply_of (complete_at k c s.world.calls).1;
    },
    rw (network_event_lem k c s.world) refl,
    drop-append s.world.sent _,
  )

  backend-Hits :
      (k : ℕ) (c : HttpClient.Completion) (s : Site)
      → handle_events J beast order (network k c ∷ []) s ≡ dangling
      → Hits (backend k c) s
  backend-Hits k c s h =
      let (w, ran, lost) = handle_events-dangling (network k c ∷ []) s h in
      let (v, ran', sent) = network_sent k c s in
      let same : v ≡ w = Option.some-injective v w (sym ran' ∙ ran) in
      deliver-reply_of (complete_at k c s.world.calls).1 s.sessions (
        ap (λ x. deliver x s.sessions)
          (sym sent ∙ ap (λ (u : World). drop (length s.world.sent) u.sent) same)
        ∙ lost)

  Hits-backend :
      (k : ℕ) (c : HttpClient.Completion) (s : Site)
      → Hits (backend k c) s
      → handle_events J beast order (network k c ∷ []) s ≡ dangling
  unfolding handle_events deliver
  Hits-backend k c s (d, called, gone) =
      let (v, ran, sent) = network_sent k c s in rw (ran, sent, called, gone) refl

  -- A reply finds its session gone exactly when a call of `http_client_` ends for a session that is
  -- not reading: no other move can do it, whatever it brings and however the sites came about.
  pub happen-dangling_iff : (m : Move) (s : Site) → (happen J beast order m s ≡ dangling) ↔ Hits m s
  unfolding happen
  happen-dangling_iff (accepted use_ssl) s = (λ h. cc, λ h. absurd h)
  happen-dangling_iff (completion n c) s =
      (λ h. completion-safe n c s (and_then-dangling _ _ h), λ h. absurd h)
  happen-dangling_iff (backend k c) s = (backend-Hits k c s, Hits-backend k c s)
  happen-dangling_iff (sent_last n i) s = (λ h. cc, λ h. absurd h)

  -- A session is reading, the last call of `http_client_` was made for it and waits for the backend's
  -- response. If the connection ends first, the end of the call, whether the backend has answered or
  -- failed, sends through the session that is gone.
  pub hung_up :
      (s : Site) (n : ℕ) (ks : List (HttpClient.Connection Captured))
      (k : HttpClient.Connection Captured) (events : List http2_server.Session.Event)
      (refused : Bool) (c : HttpClient.Completion)
      → has_session n s.sessions ≡ true
      → s.world.calls ≡ ks ++ k ∷ []
      → k.phase ≡ HttpClient.reading
      → k.callback.sender ≡ n
      → live J beast order s (completion n (read true events refused) ∷ backend (length ks) c ∷ [])
        ≡ dangling
  unfolding live happen
  hung_up s n ks k events refused c there last waits mine =
      let x = session_at n s.sessions in
      let y = on_completion x.waiting (read true events refused) x in
      let next = change_session n (λ _. y) s in
      let (o, ends) = complete-reading k c waits in
      let called : (complete_at (length ks) c s.world.calls).1 ≡ some (k.callback, o) =
        rw (last, complete_at-length ks k c, ends) refl in
      let gone : has_session k.callback.sender next.sessions ≡ false =
        rw (mine, session_at-replace_at n s.sessions y there)
          (read_failed x.waiting events refused x there) in
      rw (passed_failed x.waiting events refused x.streams, no_events s)
        (ap (λ r. resume J beast order r (λ t. going t))
          (Hits-backend (length ks) c next ((k.callback, o), called, gone)))
