-- ===== src/Parser/Number/Exact.antt =====
-- `bufferToLong` on what the digits spell.
use redisclient_libary.Common.{
  Bytes, [], ◌∷◌, ℕ, zero, suc, ◌+◌, ◌-◌, ◌*◌, ◌≤◌, leb, if◌then◌else◌, Build, debug, release,
  Result, ok, fault, ◌>>=◌, signed_overflow, ◌≡◌, refl, ◌∙◌, arith, All,
}
use redisclient_libary.Common.Int.{ℤ, pos, negsuc, long_max, negate, IsSymmetric}
use redisclient_libary.Common.Decimal.{
  IsDigit, spelled, to_string, to_string_int, spelled-to_string, to_string-IsDigit,
}
use redisclient_libary.Parser.Number.{accumulate, buffer_to_long, checked, negated}

-- A number of that size, if it is a `long int`.
abbrev pub long_of : ℕ → Result ℤ
long_of n = if leb n long_max then ok (pos n) else fault signed_overflow

abbrev pub minus_long_of : ℕ → Result ℤ
minus_long_of n = if leb n long_max then ok (negate n) else fault signed_overflow

le-spelled : (v : ℕ) (ds : Bytes) → v ≤ spelled v ds
le-spelled v [] = omega arith
le-spelled v (d ∷ ds) = omega (arith, le-spelled (v * 10 + (d - b'0')) ds)

accumulate-digits :
    (build : Build) (v : ℕ) (ds : Bytes)
    → v ≤ long_max
    → All IsDigit ds
    → accumulate build (pos v) ds ≡ long_of (spelled v ds)
unfolding accumulate
accumulate-digits build v [] l a = ground arith
accumulate-digits debug v (d ∷ ds) l a =
    ground
      (arith, accumulate-digits debug (v * 10 + (d - b'0')) ds, le-spelled (v * 10 + (d - b'0')) ds)
accumulate-digits release v (d ∷ ds) l a =
    ground (
      arith,
      accumulate-digits release (v * 10 + (d - b'0')) ds,
      le-spelled (v * 10 + (d - b'0')) ds,
    )

buffer_to_long-plain :
    (build : Build) (ds : Bytes) → All IsDigit ds → buffer_to_long build ds ≡ long_of (spelled 0 ds)
unfolding buffer_to_long
buffer_to_long-plain build [] a = refl
buffer_to_long-plain build (d ∷ ds) a =
    ground (arith, accumulate-digits build 0 (d ∷ ds) (omega arith) a)

long_of-negated : (n : ℕ) → (long_of n >>= λ v. checked (negated v)) ≡ minus_long_of n
unfolding negated
long_of-negated zero = refl
long_of-negated (suc n) = ground arith

buffer_to_long-minus :
    (build : Build) (ds : Bytes)
    → All IsDigit ds
    → buffer_to_long build (b'-' ∷ ds) ≡ minus_long_of (spelled 0 ds)
unfolding buffer_to_long
buffer_to_long-minus build ds a =
    rw (accumulate-digits build 0 ds (omega arith) a) (long_of-negated (spelled 0 ds))

-- In every build, digits are read as the number that they spell if its size is at most LONG_MAX, and
-- overflow a `long int` if it is larger; with a minus in front they are read as the negated number
-- under the same condition. So LONG_MIN, which is a `long int`, overflows as well.
pub buffer_to_long_exact :
    (build : Build) (ds : Bytes)
    → All IsDigit ds
    → (buffer_to_long build ds
        ≡ (if leb (spelled 0 ds) long_max then ok (pos (spelled 0 ds)) else fault signed_overflow))
      × (buffer_to_long build (b'-' ∷ ds) ≡ (
          if leb (spelled 0 ds) long_max
          then ok (negate (spelled 0 ds))
          else fault signed_overflow))
buffer_to_long_exact build ds a = (buffer_to_long-plain build ds a, buffer_to_long-minus build ds a)

pub buffer_to_long-to_string :
    (build : Build) (n : ℕ) → n ≤ long_max → buffer_to_long build (to_string n) ≡ ok (pos n)
buffer_to_long-to_string build n h =
    buffer_to_long-plain build (to_string n) (to_string-IsDigit n)
    ∙ rw (spelled-to_string n) (ground arith)

-- The number that `std::to_string` writes is read back, LONG_MIN excepted.
pub buffer_to_long-to_string_int :
    (build : Build) (i : ℤ) → IsSymmetric i → buffer_to_long build (to_string_int i) ≡ ok i
unfolding to_string_int
buffer_to_long-to_string_int build (pos n) h = buffer_to_long-to_string build n h
buffer_to_long-to_string_int build (negsuc n) h =
    buffer_to_long-minus build (to_string (suc n)) (to_string-IsDigit (suc n))
    ∙ rw (spelled-to_string (suc n)) (ground arith)
