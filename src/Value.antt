-- ===== src/Value.antt =====
-- src/redisclient/RedisValue.h and RedisValue.cpp: the value of a reply.
-- `boost::variant` is a sum: equality of two variants is that of their alternatives and contents.
pub mod Inspect
pub mod Equality
pub mod Access
use redisclient_libary.Common.{
  Bytes, Bool, true, false, not, ◌&&◌, [], ◌∷◌, ◌++◌, ◌==◌, ℕ, zero, suc, ◌-◌, codes, length, take,
  eq_bytes, if◌then◌else◌, Build, Result, ok, fault, bad_get, assert, ◌>>=◌, ◌>>◌,
}
use redisclient_libary.Common.Int.{ℤ, pos, negsuc}
use redisclient_libary.Common.Decimal.{to_string_int}

-- The fields `value` and `error`, in this order.
mutual
  pub data RedisValue : Type 0 where
    redis_value : Variant → Bool → RedisValue

  pub data Variant : Type 0 where
    null_tag : Variant
    int64 : ℤ → Variant
    bytes : Bytes → Variant
    array : Values → Variant

  -- `std::vector<RedisValue>`
  pub data Values : Type 0 where
    nil : Values
    cons : RedisValue → Values → Values

-- The constructors.
abbrev pub null_value : RedisValue
null_value = redis_value null_tag false

abbrev pub int_value : ℤ → RedisValue
int_value i = redis_value (int64 i) false

-- From a `std::vector<char>`, and from a `std::string` or a C string, which are copied into one.
abbrev pub bytes_value : Bytes → RedisValue
bytes_value buf = redis_value (bytes buf) false

abbrev pub error_value : Bytes → RedisValue
error_value buf = redis_value (bytes buf) true

abbrev pub array_value : Values → RedisValue
array_value vs = redis_value (array vs) false

-- What a move leaves in its source: an emptied vector, or the number as it was. The flag stays.
moved_variant : Variant → Variant
moved_variant null_tag = null_tag
moved_variant (int64 i) = int64 i
moved_variant (bytes _) = bytes []
moved_variant (array _) = array nil

unfoldable pub moved_from : RedisValue → RedisValue
unfolding moved_variant
moved_from (redis_value v e) = redis_value (moved_variant v) e

-- The types that the variant holds, what each contains, and `T()` of each.
pub data TypeId : Type 0 where
  null_id int64_id bytes_id array_id : TypeId

abbrev pub Content : TypeId → Type 0
Content null_id = Unit
Content int64_id = ℤ
Content bytes_id = Bytes
Content array_id = Values

abbrev pub default_content : (t : TypeId) → Content t
default_content null_id = tt
default_content int64_id = pos 0
default_content bytes_id = []
default_content array_id = nil

-- `value.type()`
abbrev pub type_of : Variant → TypeId
type_of null_tag = null_id
type_of (int64 _) = int64_id
type_of (bytes _) = bytes_id
type_of (array _) = array_id

-- `castTo<T>`
abbrev pub cast_to : (t : TypeId) → RedisValue → Content t
cast_to null_id (redis_value _ _) = tt
cast_to int64_id (redis_value (int64 i) _) = i
cast_to bytes_id (redis_value (bytes b) _) = b
cast_to array_id (redis_value (array vs) _) = vs
cast_to t (redis_value _ _) = default_content t

abbrev same_type : TypeId → TypeId → Bool
same_type null_id null_id = true
same_type int64_id int64_id = true
same_type bytes_id bytes_id = true
same_type array_id array_id = true
same_type _ _ = false

-- `typeEqual<T>`, read as the test of the variant's type that `castTo` writes out.
abbrev pub type_equal : TypeId → RedisValue → Bool
type_equal t (redis_value v _) = same_type (type_of v) t

unfoldable pub to_array : RedisValue → Values
to_array v = cast_to array_id v

unfoldable pub to_byte_array : RedisValue → Bytes
to_byte_array v = cast_to bytes_id v

unfoldable pub to_text : RedisValue → Bytes
unfolding to_byte_array
to_text v = to_byte_array v

unfoldable pub to_int64 : RedisValue → ℤ
to_int64 v = cast_to int64_id v

unfoldable pub is_error : RedisValue → Bool
is_error (redis_value _ e) = e

unfoldable pub is_ok : RedisValue → Bool
unfolding is_error
is_ok v = not (is_error v)

unfoldable pub is_null : RedisValue → Bool
is_null v = type_equal null_id v

unfoldable pub is_int : RedisValue → Bool
is_int v = type_equal int64_id v

unfoldable pub is_string : RedisValue → Bool
is_string v = type_equal bytes_id v

unfoldable pub is_byte_array : RedisValue → Bool
is_byte_array v = type_equal bytes_id v

unfoldable pub is_array : RedisValue → Bool
is_array v = type_equal array_id v

-- `getByteArray` and `getArray`: the assertion, then `boost::get`.
unfoldable pub get_byte_array : Build → RedisValue → Result Bytes
unfolding is_byte_array
get_byte_array build (redis_value (bytes b) e) = do
  assert build (is_byte_array (redis_value (bytes b) e))
  ok b
get_byte_array build v = do assert build (is_byte_array v); fault bad_get

unfoldable pub get_array : Build → RedisValue → Result Values
unfolding is_array
get_array build (redis_value (array vs) e) = do
  assert build (is_array (redis_value (array vs) e))
  ok vs
get_array build v = do assert build (is_array v); fault bad_get

-- `push_back`, `size`, `operator[]` of a vector of values.
unfoldable pub push_back : Values → RedisValue → Values
push_back nil v = cons v nil
push_back (cons w vs) v = cons w (push_back vs v)

abbrev pub size : Values → ℕ
size nil = 0
size (cons v vs) = suc (size vs)

-- `result.resize(result.size() - 1)`, and then the last byte is written over.
unfoldable pub set_last : Bytes → ℕ → Bytes
set_last [] c = []
set_last (x ∷ []) c = c ∷ []
set_last (x ∷ y ∷ xs) c = x ∷ set_last (y ∷ xs) c

unfoldable pub close_bracket : Bytes → Bytes
unfolding set_last
close_bracket result = set_last (take (length result - 1) result) b']'

abbrev is_empty : Values → Bool
is_empty nil = true
is_empty (cons _ _) = false

-- `inspect`, and its loop over the items, which appends to `result`.
unfoldable mutual
  unfolding to_byte_array to_string_int close_bracket

  pub inspect : RedisValue → Bytes
  inspect (redis_value v e) =
      if e then codes "error: " ++ to_byte_array (redis_value v e) else inspect_variant v

  pub inspect_variant : Variant → Bytes
  inspect_variant null_tag = codes "(null)"
  inspect_variant (int64 i) = to_string_int i
  inspect_variant (bytes b) = b
  inspect_variant (array vs) =
      if is_empty vs then codes "[" ++ codes "]" else close_bracket (inspect_items (codes "[") vs)

  pub inspect_items : Bytes → Values → Bytes
  inspect_items result nil = result
  inspect_items result (cons v vs) = inspect_items ((result ++ inspect v) ++ codes ", ") vs

-- `operator==` compares the variants and passes over the flags, also inside arrays.
abbrev eq_int : ℤ → ℤ → Bool
eq_int (pos a) (pos b) = a == b
eq_int (negsuc a) (negsuc b) = a == b
eq_int _ _ = false

unfoldable mutual
  unfolding eq_bytes

  pub eq_value : RedisValue → RedisValue → Bool
  eq_value (redis_value v _) (redis_value w _) = eq_variant v w

  pub eq_variant : Variant → Variant → Bool
  eq_variant null_tag null_tag = true
  eq_variant (int64 i) (int64 j) = eq_int i j
  eq_variant (bytes a) (bytes b) = eq_bytes a b
  eq_variant (array vs) (array ws) = eq_values vs ws
  eq_variant _ _ = false

  pub eq_values : Values → Values → Bool
  eq_values nil nil = true
  eq_values (cons v vs) (cons w ws) = eq_value v w && eq_values vs ws
  eq_values _ _ = false

unfoldable pub ne_value : RedisValue → RedisValue → Bool
unfolding eq_value
ne_value v w = not (eq_value v w)
