-- ===== src/Parser/Complete.antt =====
-- RedisParser.cpp, the block of `parseChunk` behind the switch: what a completed value does to the
-- stacks `arraySizes` and `arrayValues`.
use redisclient_libary.Common.{
  Bool, true, false, List, [], ◌∷◌, zero, suc, if◌then◌else◌, Build, Result, ok, fault,
  empty_container, ◌>>=◌,
}
use redisclient_libary.Common.Int.{ℤ, pos, negsuc}
use redisclient_libary.Value.{RedisValue, Variant, redis_value, array, get_array, push_back}
use redisclient_libary.Parser.Step.{Parser}

-- `arrayValues.top().getArray().push_back(v)`
abbrev with_array : RedisValue → Variant → RedisValue
with_array (redis_value _ e) v = redis_value v e

unfoldable pub push_top : Build → RedisValue → List RedisValue → Result (List RedisValue)
push_top build v [] = fault empty_container
push_top build v (t ∷ ts) = do
  vs ← get_array build t
  ok (with_array t (array (push_back vs v)) ∷ ts)

-- `--arraySizes.top()`; the sizes pushed are positive.
unfoldable pub decrement : ℤ → ℤ
decrement (pos zero) = negsuc zero
decrement (pos (suc n)) = pos n
decrement (negsuc n) = negsuc (suc n)

abbrev pub is_zero : ℤ → Bool
is_zero (pos zero) = true
is_zero _ = false

pub record Unwound : Type 0 where
  pub sizes : List ℤ
  pub values : List RedisValue
  pub value : RedisValue

-- The inner `while`: arrays that are full are closed, each into the one around it.
unfoldable pub unwind : Build → RedisValue → List ℤ → List RedisValue → Result Unwound
unfolding decrement
unwind build v [] values = ok (record { sizes = []; values = values; value = v })
unwind build v (n ∷ []) values =
    if is_zero (decrement n)
    then elim values [
      | [] ↦ fault empty_container
      | t ∷ ts ↦ ok (record { sizes = []; values = ts; value = t })
    ]
    else ok (record { sizes = decrement n ∷ []; values = values; value = v })
unwind build v (n ∷ m ∷ ns) values =
    let closed : Result Unwound = elim values [
      | [] ↦ fault empty_container
      | t ∷ ts ↦ do ts' ← push_top build t ts; unwind build t (m ∷ ns) ts'
    ] in
    if is_zero (decrement n)
    then closed
    else ok (record { sizes = decrement n ∷ m ∷ ns; values = values; value = v })

-- The block of a completed value, `if (!arraySizes.empty())`.
unfoldable pub complete : Build → Parser → Result Parser
complete build p = elim p.array_sizes [
  | [] ↦ ok p
  | n ∷ ns ↦ do
    values ← push_top build p.redis_value p.array_values
    u ← unwind build p.redis_value (n ∷ ns) values
    ok (record p { array_sizes = u.sizes; array_values = u.values; redis_value = u.value })
]
