-- ===== src/Prelude/Text.antt =====
-- `std::string` and `std::string_view` as lists of bytes, with the operations that the program
-- calls: `==`, `find`, `substr`, `c_str` (read back up to the first NUL) and `append`.
use Prim.Native.Char.{code}
use Prim.Native.Nat.{ℕ, suc}
use Prim.Native.String.{String}
use mathlib.Core.Path.{◌≡◌, refl}
use mathlib.Core.Logic.{◌↔◌, ◌≢◌}
use mathlib.Core.Bool.{Bool, true, false, ◌&&◌}
use mathlib.Core.Option.{Option, none, some}
use mathlib.Core.List.{List, [], ◌∷◌, ◌++◌}
use native.Mathlib.Omega.{arith}
use http2_server.Prelude.Tests.{Eq, nat_beq, if◌then◌else◌}
use http2_server.Prelude.Lists.{length, take, take-append, All}

abbrev pub Text : Type 0
Text = List ℕ

-- The bytes of an ASCII literal. It is shut, so that a literal stays one term in a proof.
unfoldable pub codes : String → Text
codes String.[] = []
codes (String.◌∷◌ c s) = code c ∷ codes s

unfoldable pub text_beq : Text → Text → Bool
text_beq [] [] = true
text_beq [] (y ∷ ys) = false
text_beq (x ∷ xs) [] = false
text_beq (x ∷ xs) (y ∷ ys) = nat_beq x y && text_beq xs ys

pub text_beq_iff : (s t : Text) → (text_beq s t ≡ true) ↔ (s ≡ t)
unfolding text_beq
text_beq_iff [] [] = ground arith
text_beq_iff [] (y ∷ ys) = ground arith
text_beq_iff (x ∷ xs) [] = ground arith
text_beq_iff (x ∷ xs) (y ∷ ys) = ground (arith, text_beq_iff xs ys)

instance abbrev pub text_eq : Eq Text
text_eq = record { beq = text_beq; beq_iff = text_beq_iff }

-- A begins with B.
abbrev pub IsPrefix : Text → Text → Type 0
IsPrefix p s = (rest : Text) × (s ≡ p ++ rest)

unfoldable pub starts_with : Text → Text → Bool
starts_with s [] = true
starts_with [] (y ∷ ys) = false
starts_with (x ∷ xs) (y ∷ ys) = nat_beq x y && starts_with xs ys

-- `s.find(t)`: the least position at which `t` occurs, or `npos`.
unfoldable pub find : Text → Text → Option ℕ
unfolding starts_with
find [] t = if starts_with [] t then some 0 else none
find (x ∷ xs) t =
    let later = find xs t in
    if starts_with (x ∷ xs) t then some 0 else elim later [ none ↦ none | some i ↦ some (suc i) ]

-- `s.find(t) == 0`
unfoldable pub found_at_start : Text → Text → Bool
unfolding find
found_at_start s t = elim (find s t) [ none ↦ false | some i ↦ nat_beq i 0 ]

-- `s.substr(0, n)`
abbrev pub substr : Text → ℕ → Text
substr s n = take n s

-- What a constructor from `const char*` reads of the bytes behind `s.data()`.
unfoldable pub c_str : Text → Text
c_str [] = []
c_str (x ∷ xs) = if nat_beq x 0 then [] else x ∷ c_str xs

IsPrefix-of_starts_with : (s t : Text) → starts_with s t ≡ true → IsPrefix t s
unfolding starts_with
IsPrefix-of_starts_with s [] h = (s, refl)
IsPrefix-of_starts_with [] (y ∷ ys) h = cc
IsPrefix-of_starts_with (x ∷ xs) (y ∷ ys) h =
    let (rest, e) = IsPrefix-of_starts_with xs ys (ground arith) in (rest, ground arith)

starts_with-append : (t rest : Text) → starts_with (t ++ rest) t ≡ true
unfolding starts_with
starts_with-append [] rest = ground arith
starts_with-append (y ∷ ys) rest = ground (arith, starts_with-append ys rest)

pub starts_with_iff : (s t : Text) → (starts_with s t ≡ true) ↔ IsPrefix t s
starts_with_iff s t = (IsPrefix-of_starts_with s t, λ p. rw p.1 (starts_with-append t p.0))

-- The position test of the source is a prefix test.
pub found_at_start-eq : (s t : Text) → found_at_start s t ≡ starts_with s t
unfolding found_at_start find
found_at_start-eq [] t = ground arith
found_at_start-eq (x ∷ xs) t = ground arith

pub found_at_start_iff : (s t : Text) → (found_at_start s t ≡ true) ↔ IsPrefix t s
found_at_start_iff s t = rw (found_at_start-eq s t) (starts_with_iff s t)

-- `s.substr(0, t.size()) == t` is the same test again.
pub substr_iff : (s t : Text) → (substr s (length t) ≡ t) ↔ IsPrefix t s
substr_iff s t = (substr-IsPrefix s t, λ p. rw p.1 (take-append t p.0))
  where
    substr-IsPrefix : (s t : Text) → substr s (length t) ≡ t → IsPrefix t s
    substr-IsPrefix s [] h = (s, refl)
    substr-IsPrefix [] (y ∷ ys) h = cc
    substr-IsPrefix (x ∷ xs) (y ∷ ys) h = let (rest, e) = substr-IsPrefix xs ys (cc) in (rest, cc)

-- No byte is NUL.
abbrev pub NoNul : Text → Type 0
NoNul = All (λ b. b ≢ 0)

pub c_str_of_NoNul : (s : Text) → NoNul s → c_str s ≡ s
unfolding c_str
c_str_of_NoNul [] h = refl
c_str_of_NoNul (x ∷ xs) h = ground (arith, c_str_of_NoNul xs h.1)

pub c_str-NoNul : (s : Text) → NoNul (c_str s)
unfolding c_str
c_str-NoNul [] = tt
c_str-NoNul (x ∷ xs) = ground (arith, c_str-NoNul xs)
