-- ===== src/Prelude/Decimal.antt =====
-- `std::to_string` of an `int` or a `size_t`, and `std::stoi`.
use Prim.Native.Nat.{ℕ, zero, suc, ◌+◌, ◌-◌, ◌*◌, ◌/◌, ◌%◌, ◌^◌, ◌≤◌, ◌<◌}
use mathlib.Core.Path.{◌≡◌, refl}
use mathlib.Core.Bool.{Bool, true, false, ◌&&◌, ◌||◌}
use mathlib.Core.Option.{Option, none, some}
use mathlib.Core.List.{[], ◌∷◌}
use native.Mathlib.Omega.{arith}
use http2_server.Prelude.Tests.{ltb, leb, nat_beq, if◌then◌else◌}
use http2_server.Prelude.Lists.{length}
use http2_server.Prelude.Text.{Text, codes}
use http2_server.Prelude.Int.{ℤ, pos, negsuc}

-- The digits of `n` before `acc`; the fuel bounds the rounds.
digits_before : ℕ → ℕ → Text → Text
digits_before zero n acc = acc
digits_before (suc fuel) n acc =
    let more = digits_before fuel (n / 10) ((b'0' + n % 10) ∷ acc) in
    if nat_beq n 0 then acc else more

-- `std::to_string(size_t)`
unfoldable pub size_to_string : ℕ → Text
unfolding digits_before
size_to_string n = if nat_beq n 0 then b'0' ∷ [] else digits_before (suc n) n []

-- `std::to_string(int)`
unfoldable pub to_string : ℤ → Text
unfolding size_to_string
to_string (pos n) = size_to_string n
to_string (negsuc n) = b'-' ∷ size_to_string (suc n)

abbrev is_space : ℕ → Bool
is_space c = nat_beq c b' ' || (leb 9 c && leb c 13)

abbrev is_digit : ℕ → Bool
is_digit c = leb b'0' c && leb c b'9'

skip_space : Text → Text
skip_space [] = []
skip_space (c ∷ s) = if is_space c then skip_space s else c ∷ s

-- The sign, `true` for minus, and what follows it.
read_sign : Text → Bool × Text
read_sign [] = (false, [])
read_sign (c ∷ s) =
    if nat_beq c b'-' then (true, s) else if nat_beq c b'+' then (false, s) else (false, c ∷ s)

-- The value of the leading digits, behind the value `n` of those already read.
scan : ℕ → Text → ℕ
scan n [] = n
scan n (c ∷ s) = let more = scan (n * 10 + (c - b'0')) s in if is_digit c then more else n

unfoldable pub begins_digit : Text → Bool
begins_digit [] = false
begins_digit (c ∷ s) = is_digit c

-- The `int` with this sign and magnitude, if there is one.
in_int_range : Bool → ℕ → Option ℤ
in_int_range false n = if ltb n (2 ^ 31) then some (pos n) else none
in_int_range true zero = some (pos 0)
in_int_range true (suc n) = if ltb n (2 ^ 31) then some (negsuc n) else none

stoi_signed : Bool × Text → Option ℤ
stoi_signed (minus, s) = if begins_digit s then in_int_range minus (scan 0 s) else none

-- `std::stoi`; `none` stands for `std::invalid_argument` and `std::out_of_range`.
unfoldable pub stoi : Text → Option ℤ
unfolding skip_space read_sign stoi_signed begins_digit in_int_range scan
stoi s = stoi_signed (read_sign (skip_space s))

-- Reading the last digit of `n` after the digits before it gives `n`.
scan_last : (n : ℕ) (acc : Text) → scan (n / 10) ((b'0' + n % 10) ∷ acc) ≡ scan n acc
unfolding scan
scan_last n acc = ground arith

scan-digits_before :
    (fuel n : ℕ) (acc : Text) → n < fuel → scan 0 (digits_before fuel n acc) ≡ scan n acc
unfolding digits_before
scan-digits_before zero n acc h = absurd (omega arith)
scan-digits_before (suc fuel) n acc h =
    ground (arith, scan-digits_before fuel (n / 10) ((b'0' + n % 10) ∷ acc), scan_last n acc)

begins_digit_last : (n : ℕ) (acc : Text) → begins_digit ((b'0' + n % 10) ∷ acc) ≡ true
unfolding begins_digit
begins_digit_last n acc = ground arith

begins_digit-digits_before :
    (fuel n : ℕ) (acc : Text)
    → begins_digit acc ≡ true
    → begins_digit (digits_before fuel n acc) ≡ true
unfolding digits_before
begins_digit-digits_before zero n acc h = h
begins_digit-digits_before (suc fuel) n acc h = ground (
  arith,
  begins_digit_last n acc,
  begins_digit-digits_before fuel (n / 10) ((b'0' + n % 10) ∷ acc),
)

pub begins_digit-size_to_string : (n : ℕ) → begins_digit (size_to_string n) ≡ true
unfolding size_to_string digits_before
begins_digit-size_to_string n = ground (
  arith,
  begins_digit_last 0 [],
  begins_digit_last n [],
  begins_digit-digits_before n (n / 10) ((b'0' + n % 10) ∷ []),
)

-- The print of a size is read back, whatever its magnitude.
scan-size_to_string : (n : ℕ) → scan 0 (size_to_string n) ≡ n
unfolding size_to_string scan
scan-size_to_string n = ground (arith, scan-digits_before (suc n) n [])

skip_space_of_digit : (s : Text) → begins_digit s ≡ true → skip_space s ≡ s
unfolding skip_space begins_digit
skip_space_of_digit [] h = cc
skip_space_of_digit (c ∷ s) h = ground arith

read_sign_of_digit : (s : Text) → begins_digit s ≡ true → read_sign s ≡ (false, s)
unfolding read_sign begins_digit
read_sign_of_digit [] h = cc
read_sign_of_digit (c ∷ s) h = ground arith

-- A value of `int`.
abbrev pub InIntRange : ℤ → Type 0
InIntRange (pos n) = n < 2 ^ 31
InIntRange (negsuc n) = n < 2 ^ 31

-- `std::stoi` reads back what `std::to_string` printed of an `int`.
pub stoi-to_string : (i : ℤ) → InIntRange i → stoi (to_string i) ≡ some i
unfolding stoi to_string
stoi-to_string (pos n) h =
    let d = begins_digit-size_to_string n in
    rw (skip_space_of_digit _ d, read_sign_of_digit _ d) (ground (arith, scan-size_to_string n, d))
stoi-to_string (negsuc n) h =
    ground (arith, scan-size_to_string (suc n), begins_digit-size_to_string (suc n))

stoi_trailing : (stoi (codes " -42x") ≡ some (negsuc 41)) × (stoi (codes "x1") ≡ none)
unfolding stoi codes
stoi_trailing = (refl, refl)

stoi_bounds :
    (stoi (codes "2147483647") ≡ some (pos 2147483647))
    × (stoi (codes "2147483648") ≡ none)
    × (stoi (codes "-2147483648") ≡ some (negsuc 2147483647))
unfolding stoi codes
stoi_bounds = (refl, refl, refl)

abbrev power : ℕ → ℕ
power zero = 1
power (suc k) = 10 * power k

length-digits_before :
    (fuel k n : ℕ) (acc : Text) → n < power k → length (digits_before fuel n acc) ≤ k + length acc
unfolding digits_before
length-digits_before zero k n acc h = omega arith
length-digits_before (suc fuel) zero n acc h = ground arith
length-digits_before (suc fuel) (suc k) n acc h =
    ground (arith, length-digits_before fuel k (n / 10) ((b'0' + n % 10) ∷ acc) (omega arith))

length-size_to_string : (k n : ℕ) → n < power k → length (size_to_string n) ≤ suc k
unfolding size_to_string
length-size_to_string k n h = ground (arith, length-digits_before (suc n) k n [] h)

-- The print of an `int` has at most twelve bytes.
pub length-to_string : (i : ℤ) → InIntRange i → length (to_string i) ≤ 12
unfolding to_string
length-to_string (pos n) h = omega (arith, length-size_to_string 10 n (omega arith))
length-to_string (negsuc n) h = omega (arith, length-size_to_string 10 (suc n) (omega arith))
