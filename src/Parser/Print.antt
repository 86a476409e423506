-- ===== src/Parser/Print.antt =====
-- The replies of a server as the Redis protocol prints them, apart from arrays.
use redisclient_libary.Common.{Bytes, [], ◌∷◌, ◌++◌, ℕ, ◌≤◌, length, All}
use redisclient_libary.Common.Int.{ℤ, long_max, IsSymmetric}
use redisclient_libary.Common.Decimal.{to_string, to_string_int}
use redisclient_libary.Value.{RedisValue, null_value, int_value, bytes_value, error_value}

pub data Reply : Type 0 where
  simple : Bytes → Reply
  failure : Bytes → Reply
  number : ℤ → Reply
  nil_bulk : Reply
  bulk_string : Bytes → Reply

abbrev pub crlf : Bytes
crlf = b'\r' ∷ b'\n' ∷ []

-- Each with what follows it in the stream.
abbrev pub print : Reply → Bytes → Bytes
print (simple s) rest = b'+' ∷ (s ++ (b'\r' ∷ b'\n' ∷ rest))
print (failure s) rest = b'-' ∷ (s ++ (b'\r' ∷ b'\n' ∷ rest))
print (number i) rest = b':' ∷ (to_string_int i ++ (b'\r' ∷ b'\n' ∷ rest))
print nil_bulk rest = b'$' ∷ b'-' ∷ b'1' ∷ b'\r' ∷ b'\n' ∷ rest
print (bulk_string s) rest =
    b'$' ∷ (to_string (length s) ++ (b'\r' ∷ b'\n' ∷ (s ++ (b'\r' ∷ b'\n' ∷ rest))))

-- Printable ASCII.
abbrev pub IsText : ℕ → Type 0
IsText c = (32 ≤ c) × (c ≤ 126)

-- Lines hold printable ASCII, and numbers fit a `long int`.
abbrev pub IsSendable : Reply → Type 0
IsSendable (simple s) = All IsText s
IsSendable (failure s) = All IsText s
IsSendable (number i) = IsSymmetric i
IsSendable nil_bulk = Unit
IsSendable (bulk_string s) = length s ≤ long_max

abbrev pub meaning : Reply → RedisValue
meaning (simple s) = bytes_value s
meaning (failure s) = error_value s
meaning (number i) = int_value i
meaning nil_bulk = null_value
meaning (bulk_string s) = bytes_value s
