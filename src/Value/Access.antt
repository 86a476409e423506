-- ===== src/Value/Access.antt =====
-- The tests, the casts and the checked accessors of a value.
use redisclient_libary.Common.{
  arith, Bool, true, false, ℕ, ◌+◌, if◌then◌else◌, Build, debug, release, Fault, assert_failed,
  bad_get, ok, fault, ◌≡◌,
}
use redisclient_libary.Value.{
  RedisValue, redis_value, null_tag, int64, bytes, array, to_array, to_byte_array, to_text,
  to_int64, is_error, is_null, is_int, is_string, is_byte_array, is_array, get_byte_array,
  get_array,
}

-- What the tests and the casts say of a value.
abbrev pub rebuilt : RedisValue → RedisValue
rebuilt v =
    redis_value
      (if is_null v
        then null_tag
        else if is_int v
        then int64 (to_int64 v)
        else if is_string v
        then bytes (to_text v)
        else array (to_array v))
      (is_error v)

abbrev count : Bool → ℕ
count true = 1
count false = 0

-- The assertion fails, or `boost::get` throws where it is compiled out.
abbrev pub mismatch : Build → Fault
mismatch debug = assert_failed
mismatch release = bad_get

pub record IsAccessible (build : Build) (v : RedisValue) : Type 0 where
  pub rebuilds : rebuilt v ≡ v
  pub one_type : count (is_null v) + count (is_int v) + count (is_string v) + count (is_array v) ≡ 1
  pub same_test : is_byte_array v ≡ is_string v
  pub checked_bytes :
      get_byte_array build v
      ≡ (if is_byte_array v then ok (to_byte_array v) else fault (mismatch build))
  pub checked_array :
      get_array build v ≡ (if is_array v then ok (to_array v) else fault (mismatch build))

-- Exactly one of the tests isNull, isInt, isString and isArray holds of a value; the cast that goes
-- with it and the error flag give the value back; and the checked accessors give what the casts give
-- if their test holds. Otherwise they throw `bad_get` in a build without assertions, and fail at the
-- assertion, with no exception, in one with them.
pub accessors-IsAccessible : (build : Build) (v : RedisValue) → IsAccessible build v
unfolding to_array to_byte_array to_text to_int64 is_error is_null is_int is_string is_byte_array
    is_array get_byte_array get_array
accessors-IsAccessible debug (redis_value null_tag e) = ground arith
accessors-IsAccessible debug (redis_value (int64 i) e) = ground arith
accessors-IsAccessible debug (redis_value (bytes b) e) = ground arith
accessors-IsAccessible debug (redis_value (array vs) e) = ground arith
accessors-IsAccessible release (redis_value null_tag e) = ground arith
accessors-IsAccessible release (redis_value (int64 i) e) = ground arith
accessors-IsAccessible release (redis_value (bytes b) e) = ground arith
accessors-IsAccessible release (redis_value (array vs) e) = ground arith
