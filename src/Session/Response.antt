-- ===== src/Session/Response.antt =====
-- How much of a response's body reaches the peer through the `read_callback` of `send_response`
-- (src/transport/session.cpp).
use http2_server.Prelude.{
  ℕ, ◌≤◌, ◌<◌, ◌≡◌, sym, ap, ◌∙◌, subst, ◌↔◌, List, [], ◌∷◌, length, take, take_all, length-take,
  leb, Bool-cases, inl, inr, if◌then◌else◌, arith,
}
use http2_server.Prelude.Text.{Text, c_str, NoNul, c_str_of_NoNul, c_str-NoNul}
use http2_server.Nghttp2.{collect}
use http2_server.Session.{read_callback}

length-c_str : (s : Text) → length (c_str s) ≤ length s
unfolding c_str
length-c_str [] = omega arith
length-c_str (x ∷ xs) = ground (arith, length-c_str xs)

pub take_cut : (n : ℕ) (s : Text) → take (if leb (length s) n then length s else n) s ≡ take n s
take_cut n s = elim (Bool-cases (leb (length s) n)) [
  | inl q ↦ rw q (take_all (length s) s (omega arith) ∙ sym (take_all n s (ground arith)))
  | inr q ↦ rw q
]

-- What nghttp2 gets is the first buffer's part of the body up to its first NUL, however many buffers
-- it would have had room for.
pub delivered :
    (body : Text) (room : ℕ) (rooms : List ℕ)
    → collect (read_callback body) (room ∷ rooms) ≡ take room (c_str body)
unfolding read_callback
delivered body room rooms = take_cut room (c_str body)

whole_of_take : (n : ℕ) (s t : Text) → length t ≤ length s → take n t ≡ s → (t ≡ s) × (length s ≤ n)
whole_of_take n s t shorter e =
    let fits : length t ≤ n = omega (arith, ap length e, length-take n t) in
    let same : t ≡ s = sym (take_all n t fits) ∙ e in (same, omega (arith, ap length same))

-- A body reaches the peer whole exactly when it holds no NUL and fits the room of the first DATA
-- frame. Otherwise it is cut, though the field content-length announces all of it.
pub delivered_whole_iff :
    (body : Text) (room : ℕ) (rooms : List ℕ)
    → (collect (read_callback body) (room ∷ rooms) ≡ body) ↔ (NoNul body × (length body ≤ room))
delivered_whole_iff body room rooms = (
  λ e.
      let (same, fits) =
        whole_of_take room body (c_str body) (length-c_str body)
          (sym (delivered body room rooms) ∙ e) in
      (subst NoNul same (c_str-NoNul body), fits),
  λ h.
      delivered body room rooms ∙ ap (take room) (c_str_of_NoNul body h.0) ∙ take_all room body h.1,
)

-- A body that is longer than the first buffer loses its end: fewer bytes arrive than announced.
delivered_short :
    (body : Text) (room : ℕ) (rooms : List ℕ)
    → room < length body
    → length (collect (read_callback body) (room ∷ rooms)) < length body
delivered_short body room rooms h =
    rw (delivered body room rooms) (omega (arith, length-take room (c_str body)))
