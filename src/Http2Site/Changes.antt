-- ===== src/Http2Site/Changes.antt =====
-- Which part of a session (src/transport/session.cpp) a move of the whole server changes.
use http2_server.Nghttp2.{Nghttp2Call}
use http2_server.Prelude.{
  member_at-replace_at_ne, replace_at-none, ℕ, ◌≡◌, refl, sym, ap, ◌∙◌, ◌≢◌, subst, List, [], ◌∷◌,
  ◌++◌, Bool, true, false, ◌==◌, eq_iff, eq_refl, nat_eq, ℕ_discrete, if◌then◌else◌, keep_if-append,
  append-nil, map, length, All, member_at, replace_at, member_at-replace_at, member_at-beyond,
  Bool-cases, member_at-length, member_at-length_ne, Option-cases, inl, inr, arith,
}
use http2_server.Prelude.Int.{ℤ}
use http2_server.World.{Reply}
use http2_server.Server.{Event, request, network}
use http2_server.Server.Appends.{IsFrom}
use http2_server.Session.{Invocation, write_data}
use http2_server.Session.Connection.{
  Connection, Completion, Waiting, unstarted, handshaking, reading, closed, handshake, read,
  on_completion, new, start, on_handshake, on_read, setup_nghttp2, read_data, handle_ssl_handshake,
}
use http2_server.Http2Site.{session_at, is_reading, known, passed, asked, end_stream_of}
use http2_server.Http2Site.Delivery.{submissions, is_submission, Sent}

-- The requests of one session among the events of the server.
abbrev pub requests_of : ℕ → List Event → List Invocation
requests_of n [] = []
requests_of n (request method path body i s ∷ es) =
    if s == n
    then record { method = method; path = path; body = body; stream_id = i } ∷ requests_of n es
    else requests_of n es
requests_of n (network k c ∷ es) = requests_of n es

pub requests_of-append :
    (n : ℕ) (es fs : List Event) → requests_of n (es ++ fs) ≡ requests_of n es ++ requests_of n fs
requests_of-append n [] fs = refl
requests_of-append n (request method path body i s ∷ es) fs =
    ground (arith, requests_of-append n es fs)
requests_of-append n (network k c ∷ es) fs = requests_of-append n es fs

pub requests_of-asked : (n : ℕ) (cs : List Invocation) → requests_of n (map (asked n) cs) ≡ cs
requests_of-asked n [] = refl
requests_of-asked n (c ∷ cs) = rw (eq_refl n) (ap (λ x. c ∷ x) (requests_of-asked n cs))

pub requests_of-others :
    (n m : ℕ) (cs : List Invocation) → n ≢ m → requests_of m (map (asked n) cs) ≡ []
requests_of-others n m [] h = refl
requests_of-others n m (c ∷ cs) h = ground (arith, eq_iff n m, requests_of-others n m cs h)

pub asked-IsFrom : (n : ℕ) (cs : List Invocation) → All (IsFrom n) (map (asked n) cs)
asked-IsFrom n [] = tt
asked-IsFrom n (c ∷ cs) = (refl, asked-IsFrom n cs)

unsubmitted :
    (x : Connection) (extra : List Nghttp2Call)
    → submissions extra ≡ []
    → submissions (x.calls ++ extra) ≡ submissions x.calls
unsubmitted x extra h =
    keep_if-append is_submission x.calls extra
    ∙ ap (λ t. submissions x.calls ++ t) h
    ∙ append-nil (submissions x.calls)

nothing : (x : Connection) → x.invoked ≡ x.invoked ++ []
nothing x = sym (append-nil x.invoked)

-- A completion passes these requests on and submits no response of its own.
pub on_completion-Completed :
    (waiting : Waiting) (c : Completion) (x : Connection)
    → (submissions (on_completion waiting c x).calls ≡ submissions x.calls)
      × ((on_completion waiting c x).invoked ≡ x.invoked ++ passed waiting c x.streams)
unfolding on_completion on_handshake on_read setup_nghttp2 read_data write_data
on_completion-Completed unstarted c x = (refl, nothing x)
on_completion-Completed closed c x = (refl, nothing x)
on_completion-Completed handshaking (handshake true) x = (refl, nothing x)
on_completion-Completed handshaking (handshake false) x = (unsubmitted x _ refl, nothing x)
on_completion-Completed handshaking (read failed events refused) x = (refl, nothing x)
on_completion-Completed reading (handshake failed) x = (refl, nothing x)
on_completion-Completed reading (read true events refused) x = (refl, nothing x)
on_completion-Completed reading (read false events true) x = (refl, refl)
on_completion-Completed reading (read false events false) x = (unsubmitted x _ refl, refl)

-- A part of a session that a change keeps, the session being there or not.
pub change-keeps :
    {A : Type 0} (part : Connection → A) (n m : ℕ) (xs : List Connection) (y : Connection)
    → part y ≡ part (session_at n xs)
    → part (session_at m (replace_at n y xs)) ≡ part (session_at m xs)
change-keeps part n m xs y h = elim (ℕ_discrete n m) [
  | no e ↦ ap (λ o. part (known o)) (member_at-replace_at_ne n m xs y e)
  | yes e ↦
      subst (λ k. part (session_at k (replace_at n y xs)) ≡ part (session_at k xs)) e
        (elim (Option-cases (member_at n xs)) [
          | inl q ↦ ap (λ o. part (known o)) (replace_at-none n n xs y q)
          | inr (x, q) ↦ ap (λ o. part (known o)) (member_at-replace_at n xs x y q) ∙ h
        ])
]

-- A change is found where it was made, if it leaves a session that has not been started.
pub change-own :
    (f : Connection → Connection) (n : ℕ) (xs : List Connection)
    → f (new false) ≡ new false
    → session_at n (replace_at n (f (session_at n xs)) xs) ≡ f (session_at n xs)
change-own f n xs h = elim (Option-cases (member_at n xs)) [
  | inl e ↦ ap known (replace_at-none n n xs _ e ∙ e) ∙ sym (ap (λ o. f (known o)) e ∙ h)
  | inr (x, e) ↦ ap known (member_at-replace_at n xs x _ e)
]

pub new_stays : (c : Completion) → on_completion (new false).waiting c (new false) ≡ new false
unfolding on_completion new
new_stays c = refl

-- Replies do not change what a completion passes on.
pub as_before :
    (x y : Connection) (n : ℕ) (rs : List Reply) (c : Completion)
    → Sent n rs x y
    → y.invoked ++ passed y.waiting c y.streams ≡ x.invoked ++ passed x.waiting c x.streams
as_before x y n rs c v = rw (v.invoked, v.waiting, v.streams) refl

-- A part that a new session has as one that has not been started.
pub accept-keeps :
    {A : Type 0} (part : Connection → A) (m : ℕ) (xs : List Connection) (y : Connection)
    → part y ≡ part (new false)
    → part (session_at m (xs ++ y ∷ [])) ≡ part (session_at m xs)
accept-keeps part m xs y h = elim (ℕ_discrete m (length xs)) [
  | no e ↦ ap (λ o. part (known o)) (member_at-length_ne m xs y e)
  | yes e ↦
      ap (λ k. part (session_at k (xs ++ y ∷ []))) e
      ∙ ap (λ o. part (known o)) (member_at-length xs y)
      ∙ h
      ∙ sym (ap (λ k. part (session_at k xs)) e ∙ ap (λ o. part (known o)) (member_at-beyond xs))
]

pub start-parts :
    (use_ssl : Bool)
    → (submissions (start (new use_ssl)).calls ≡ submissions (new false).calls)
      × ((start (new use_ssl)).invoked ≡ (new false).invoked)
unfolding start new setup_nghttp2 read_data handle_ssl_handshake
start-parts true = (refl, refl)
start-parts false = (refl, refl)

pub end_stream_of-parts :
    (x : Connection) (i : ℤ)
    → ((end_stream_of x i).calls ≡ x.calls) × ((end_stream_of x i).invoked ≡ x.invoked)
end_stream_of-parts x i = elim (Bool-cases (is_reading x.waiting)) [
  | inl e ↦ rw e (refl, refl)
  | inr e ↦ rw e (refl, refl)
]
