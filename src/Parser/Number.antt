-- ===== src/Parser/Number.antt =====
-- RedisParser.cpp, `bufferToLong`.
pub mod Exact
pub mod Faults
use redisclient_libary.Common.{
  Bytes, Bool, [], ◌∷◌, ℕ, zero, suc, ◌+◌, ◌-◌, ◌*◌, ◌==◌, ◌&&◌, leb, if◌then◌else◌, Build, Result,
  ok, fault, signed_overflow, assert, ◌>>=◌, ◌>>◌,
}
use redisclient_libary.Common.Int.{ℤ, pos, negsuc, long_max}

-- The range of `long int`; `negsuc long_max` is LONG_MIN.
abbrev pub in_long : ℤ → Bool
in_long (pos n) = leb n long_max
in_long (negsuc n) = leb n long_max

abbrev pub checked : ℤ → Result ℤ
checked v = if in_long v then ok v else fault signed_overflow

times_ten : ℤ → ℤ
times_ten (pos n) = pos (n * 10)
times_ten (negsuc n) = negsuc (suc n * 10 - 1)

-- value + (c - '0')
add_digit : ℤ → ℕ → ℤ
add_digit (pos n) c = if leb b'0' (n + c) then pos (n + c - b'0') else negsuc (b'0' - (n + c) - 1)
add_digit (negsuc n) c =
    if leb (suc n + b'0') c then pos (c - (suc n + b'0')) else negsuc (suc n + b'0' - c - 1)

negated : ℤ → ℤ
negated (pos zero) = pos zero
negated (pos (suc n)) = negsuc n
negated (negsuc n) = pos (suc n)

-- The loop. The parser's buffers hold digits and '-' only, so that `c` is never negative.
unfoldable pub accumulate : Build → ℤ → Bytes → Result ℤ
unfolding times_ten add_digit
accumulate build value [] = ok value
accumulate build value (c ∷ cs) = do
  assert build (leb b'0' c && leb c b'9')
  scaled ← checked (times_ten value)
  sum ← checked (add_digit scaled c)
  accumulate build sum cs

unfoldable pub buffer_to_long : Build → Bytes → Result ℤ
unfolding accumulate negated
buffer_to_long build [] = ok (pos 0)
buffer_to_long build (c ∷ cs) =
    if c == b'-'
    then (do value ← accumulate build (pos 0) cs; checked (negated value))
    else accumulate build (pos 0) (c ∷ cs)
