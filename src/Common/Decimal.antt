-- ===== src/Common/Decimal.antt =====
-- `std::to_string` of an unsigned and of a signed number.
use redisclient_libary.Common.Tests.{Bytes, ltb, if◌then◌else◌, codes}
use redisclient_libary.Common.Int.{ℤ, pos, negsuc}
use redisclient_libary.Common.Lists.{All, All-append, length, length-append}
use Prim.Native.Nat.{ℕ, zero, suc, ◌+◌, ◌-◌, ◌*◌, ◌/◌, ◌%◌, ◌≤◌, ◌<◌, ◌^◌}
use mathlib.Core.Path.{◌≡◌, refl}
use mathlib.Core.Logic.{◌≢◌}
use mathlib.Core.List.{[], ◌∷◌, ◌++◌}
use native.Mathlib.Omega.{arith}
use native.Mathlib.Nat.{pow-suc}

-- The number itself is fuel enough: each round divides it by ten.
unfoldable pub digits : ℕ → ℕ → Bytes
digits zero n = (b'0' + n % 10) ∷ []
digits (suc f) n =
    let more = digits f (n / 10) ++ (b'0' + n % 10) ∷ [] in
    if ltb n 10 then (b'0' + n) ∷ [] else more

unfoldable pub to_string : ℕ → Bytes
unfolding digits
to_string n = digits n n

unfoldable pub to_string_int : ℤ → Bytes
unfolding to_string
to_string_int (pos n) = to_string n
to_string_int (negsuc n) = b'-' ∷ to_string (suc n)

abbrev pub IsDigit : ℕ → Type 0
IsDigit c = (b'0' ≤ c) × (c ≤ b'9')

-- The number that digits spell behind `n`.
abbrev pub spelled : ℕ → Bytes → ℕ
spelled n [] = n
spelled n (c ∷ cs) = spelled (n * 10 + (c - b'0')) cs

spelled-append :
    (n : ℕ) (xs : Bytes) (c : ℕ) → spelled n (xs ++ c ∷ []) ≡ spelled n xs * 10 + (c - b'0')
spelled-append n [] c = refl
spelled-append n (x ∷ xs) c = spelled-append (n * 10 + (x - b'0')) xs c

spelled-digits : (f n : ℕ) → n ≤ f → spelled 0 (digits f n) ≡ n
unfolding digits
spelled-digits zero n h = omega arith
spelled-digits (suc f) n h =
    ground (arith, spelled-append 0 (digits f (n / 10)) (b'0' + n % 10), spelled-digits f (n / 10))

digits-IsDigit : (f n : ℕ) → n ≤ f → All IsDigit (digits f n)
unfolding digits
digits-IsDigit zero n h = omega arith
digits-IsDigit (suc f) n h = ground (
  arith,
  All-append IsDigit (digits f (n / 10)) ((b'0' + n % 10) ∷ [])
      (digits-IsDigit f (n / 10) (omega arith)) (omega arith, tt),
)

pub spelled-to_string : (n : ℕ) → spelled 0 (to_string n) ≡ n
unfolding to_string
spelled-to_string n = spelled-digits n n (omega arith)

pub to_string-IsDigit : (n : ℕ) → All IsDigit (to_string n)
unfolding to_string
to_string-IsDigit n = digits-IsDigit n n (omega arith)

append-ne-nil : (xs : Bytes) (c : ℕ) → xs ++ c ∷ [] ≢ []
append-ne-nil [] c = cc
append-ne-nil (x ∷ xs) c = cc

pub to_string-ne-nil : (n : ℕ) → to_string n ≢ []
unfolding to_string
to_string-ne-nil zero = ground arith
to_string-ne-nil (suc n) = ground (arith, append-ne-nil (digits n (suc n / 10)) (b'0' + suc n % 10))

to_string_ten : to_string 1203 ≡ codes "1203"
unfolding to_string
to_string_ten = refl

-- A number below ten to the `k + 1` has at most `k + 1` digits.
digits-short : (k f n : ℕ) → n < 10 ^ suc k → length (digits f n) ≤ suc k
unfolding digits
digits-short k zero n h = omega arith
digits-short zero (suc f) n h = ground (arith, h)
digits-short (suc k) (suc f) n h =
    let smaller : n / 10 < 10 ^ suc k = omega (arith, h, pow-suc 10 (suc k)) in
    ground (
      arith,
      length-append (digits f (n / 10)) ((b'0' + n % 10) ∷ []),
      digits-short k f (n / 10) smaller,
    )

pub length-to_string : (n : ℕ) → n < 10 ^ 20 → length (to_string n) ≤ 20
unfolding to_string
length-to_string n h = digits-short 19 n n h
