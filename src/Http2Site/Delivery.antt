-- ===== src/Http2Site/Delivery.antt =====
-- What the calls of `sender` change of the sessions (src/transport/session.cpp), and what a completion
-- changes of one.
use mathlib.Core.Option
use http2_server.Prelude.{
  ℕ, ℕ_discrete, All, eq_refl, ◌≡◌, refl, sym, ap, ◌∙◌, ◌≢◌, subst, some, List, [], ◌∷◌, ◌++◌, Bool,
  true, false, ◌==◌, eq_iff, nat_eq, if◌then◌else◌, keep_if, keep_if-append, append_assoc,
  append-nil, member_at, replace_at, member_at-replace_at, member_at-replace_at_ne, Option-cases,
  Bool-cases, inl, inr, arith,
}
use http2_server.Prelude.Int.{ℤ}
use http2_server.Common.{HttpResponse}
use http2_server.Nghttp2.{Nghttp2Call, submit_headers, submit_response, session_send}
use http2_server.World.{Reply}
use http2_server.Session.{send_response, sender, write_data}
use http2_server.Session.Connection.{Connection, new}
use http2_server.Http2Site.{session_at, has_session, known, is_reading, send_through, deliver}

-- A call that submits a response.
abbrev pub is_submission : Nghttp2Call → Bool
is_submission (submit_headers i nvs) = true
is_submission (submit_response i nvs body) = true
is_submission _ = false

abbrev pub submissions : List Nghttp2Call → List Nghttp2Call
submissions calls = keep_if is_submission calls

-- The submissions that the replies to one sender ask for.
abbrev pub responses_to : ℕ → List Reply → List Nghttp2Call
responses_to n [] = []
responses_to n (r ∷ rs) =
    if r.sender == n
    then send_response r.stream_id r.response ++ responses_to n rs
    else responses_to n rs

pub responses_to-append :
    (n : ℕ) (rs qs : List Reply)
    → responses_to n (rs ++ qs) ≡ responses_to n rs ++ responses_to n qs
responses_to-append n [] qs = refl
responses_to-append n (r ∷ rs) qs = elim (Bool-cases (r.sender == n)) [
  | inl e ↦ rw e (
      ap (λ x. send_response r.stream_id r.response ++ x) (responses_to-append n rs qs)
      ∙ sym (append_assoc (send_response r.stream_id r.response) _ _))
  | inr e ↦ rw e (responses_to-append n rs qs)
]

send_response-submits :
    (i : ℤ) (r : HttpResponse) → submissions (send_response i r) ≡ send_response i r
unfolding send_response
send_response-submits i r = ground arith

-- The replies are submitted, and nothing else of the session changes.
pub record Sent (n : ℕ) (rs : List Reply) (x y : Connection) : Type 0 where
  pub calls : submissions y.calls ≡ submissions x.calls ++ responses_to n rs
  pub waiting : y.waiting ≡ x.waiting
  pub streams : y.streams ≡ x.streams
  pub invoked : y.invoked ≡ x.invoked

Sent-none : (n : ℕ) (x : Connection) → Sent n [] x x
Sent-none n x = record {
  calls = sym (append-nil _);
  waiting = refl;
  streams = refl;
  invoked = refl;
}

Sent-then :
    (n : ℕ) (rs qs : List Reply) (x y z : Connection)
    → Sent n rs x y
    → Sent n qs y z
    → Sent n (rs ++ qs) x z
Sent-then n rs qs x y z a b = record {
  calls =
      b.calls
      ∙ ap (λ t. t ++ responses_to n qs) a.calls
      ∙ append_assoc (submissions x.calls) _ _
      ∙ ap (λ t. submissions x.calls ++ t) (sym (responses_to-append n rs qs));
  waiting = b.waiting ∙ a.waiting;
  streams = b.streams ∙ a.streams;
  invoked = b.invoked ∙ a.invoked;
}

sender-submits : (i : ℤ) (r : HttpResponse) → submissions (sender i r) ≡ send_response i r
unfolding sender write_data
sender-submits i r =
    keep_if-append is_submission (send_response i r) (session_send ∷ [])
    ∙ ap (λ t. t ++ []) (send_response-submits i r)
    ∙ append-nil (send_response i r)

responses_to-own :
    (r : Reply) → responses_to r.sender (r ∷ []) ≡ send_response r.stream_id r.response
responses_to-own r = rw (eq_refl r.sender) (append-nil (send_response r.stream_id r.response))

responses_to-other : (n : ℕ) (r : Reply) → r.sender ≢ n → responses_to n (r ∷ []) ≡ []
responses_to-other n r h = ground (arith, eq_iff r.sender n)

send_through-Sent : (r : Reply) (x : Connection) → Sent r.sender (r ∷ []) x (send_through r x)
send_through-Sent r x = record {
  calls =
      keep_if-append is_submission x.calls (sender r.stream_id r.response)
      ∙ ap (λ t. submissions x.calls ++ t)
          (sender-submits r.stream_id r.response ∙ sym (responses_to-own r));
  waiting = refl;
  streams = refl;
  invoked = refl;
}

-- A session that is there is found where it has been replaced.
pub session_at-replace_at :
    (n : ℕ) (xs : List Connection) (y : Connection)
    → has_session n xs ≡ true
    → session_at n (replace_at n y xs) ≡ y
unfolding new
session_at-replace_at n xs y h = elim (Option-cases (member_at n xs)) [
  | inl e ↦ absurd (ground arith)
  | inr (x, e) ↦ ap known (member_at-replace_at n xs x y e)
]

session_at-replace_at_ne :
    (n m : ℕ) (xs : List Connection) (y : Connection)
    → n ≢ m
    → session_at m (replace_at n y xs) ≡ session_at m xs
session_at-replace_at_ne n m xs y h = ap known (member_at-replace_at_ne n m xs y h)

deliver_one-Sent :
    (n : ℕ) (r : Reply) (xs : List Connection)
    → has_session r.sender xs ≡ true
    → Sent n
        (r ∷ [])
        (session_at n xs)
        (session_at n (replace_at r.sender (send_through r (session_at r.sender xs)) xs))
deliver_one-Sent n r xs h = elim (ℕ_discrete r.sender n) [
  | yes e ↦
      subst
        (λ m.
          Sent m (r ∷ []) (session_at m xs)
            (session_at m (replace_at r.sender (send_through r (session_at r.sender xs)) xs)))
        e
        (rw (session_at-replace_at r.sender xs (send_through r (session_at r.sender xs)) h)
          (send_through-Sent r (session_at r.sender xs)))
  | no e ↦
      rw (session_at-replace_at_ne r.sender n xs (send_through r (session_at r.sender xs)) e)
        (record {
          calls = sym (
              ap (λ t. submissions (session_at n xs).calls ++ t) (responses_to-other n r e)
              ∙ append-nil (submissions (session_at n xs).calls));
          waiting = refl;
          streams = refl;
          invoked = refl;
        })
]

-- Replies that are delivered are submitted on the sessions that they are for, each once and in their
-- order.
pub deliver-Sent :
    (n : ℕ) (rs : List Reply) (xs ys : List Connection)
    → deliver rs xs ≡ some ys
    → Sent n rs (session_at n xs) (session_at n ys)
unfolding deliver
deliver-Sent n [] xs ys h =
    subst (λ t. Sent n [] (session_at n xs) (session_at n t)) (Option.some-injective xs ys h)
      (Sent-none n (session_at n xs))
deliver-Sent n (r ∷ rs) xs ys h = elim (Bool-cases (has_session r.sender xs)) [
  | inl e ↦
      Sent-then n (r ∷ []) rs _ _ _ (deliver_one-Sent n r xs e) (deliver-Sent n rs _ ys (rw e at h))
  | inr e ↦ absurd (ground arith)
]

-- Replies to one session that is there are all delivered.
pub deliver-some :
    (n : ℕ) (rs : List Reply) (xs : List Connection)
    → All (λ r. r.sender ≡ n) rs
    → has_session n xs ≡ true
    → (ys : List Connection) × (deliver rs xs ≡ some ys)
unfolding deliver
deliver-some n [] xs a h = (xs, refl)
deliver-some n (r ∷ rs) xs a h =
    let there : has_session r.sender xs ≡ true = rw a.0 h in
    let (ys, e) =
      deliver-some n rs (replace_at r.sender (send_through r (session_at r.sender xs)) xs) a.1
        (ap is_reading ((deliver_one-Sent n r xs there).waiting) ∙ h) in
    (ys, rw there e)
