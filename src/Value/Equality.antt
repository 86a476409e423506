-- ===== src/Value/Equality.antt =====
-- RedisValue.cpp, `operator==` and `operator!=`.
use redisclient_libary.Common.{true, false, ◌≡◌, ◌↔◌, arith, eq_bytes_iff}
use redisclient_libary.Value.{
  RedisValue, Variant, Values, redis_value, null_tag, int64, bytes, array, nil, cons, eq_value,
  eq_variant, eq_values, ne_value,
}

-- A value with every error flag in it put down.
mutual
  pub unflagged : RedisValue → RedisValue
  unflagged (redis_value v _) = redis_value (unflagged_variant v) false

  pub unflagged_variant : Variant → Variant
  unflagged_variant null_tag = null_tag
  unflagged_variant (int64 i) = int64 i
  unflagged_variant (bytes b) = bytes b
  unflagged_variant (array vs) = array (unflagged_values vs)

  pub unflagged_values : Values → Values
  unflagged_values nil = nil
  unflagged_values (cons v vs) = cons (unflagged v) (unflagged_values vs)

mutual
  unfolding eq_value unflagged

  eq_value-unflagged : (v w : RedisValue) → (eq_value v w ≡ true) ↔ (unflagged v ≡ unflagged w)
  eq_value-unflagged (redis_value v e) (redis_value w f) = ground (arith, eq_variant-unflagged v w)

  eq_variant-unflagged :
      (v w : Variant) → (eq_variant v w ≡ true) ↔ (unflagged_variant v ≡ unflagged_variant w)
  eq_variant-unflagged (int64 i) (int64 j) = ground arith
  eq_variant-unflagged (bytes a) (bytes b) = ground (arith, eq_bytes_iff a b)
  eq_variant-unflagged (array vs) (array ws) = ground (arith, eq_values-unflagged vs ws)
  eq_variant-unflagged _ _ = ground arith

  eq_values-unflagged :
      (vs ws : Values) → (eq_values vs ws ≡ true) ↔ (unflagged_values vs ≡ unflagged_values ws)
  eq_values-unflagged (cons v vs) (cons w ws) =
      ground (arith, eq_value-unflagged v w, eq_values-unflagged vs ws)
  eq_values-unflagged _ _ = ground arith

-- Two values are `==`, and not `!=`, exactly when they agree up to error flags, at every depth.
pub eq_value_exact :
    (v w : RedisValue)
    → ((eq_value v w ≡ true) ↔ (unflagged v ≡ unflagged w))
      × ((ne_value v w ≡ false) ↔ (unflagged v ≡ unflagged w))
unfolding ne_value
eq_value_exact v w = (eq_value-unflagged v w, ground (arith, eq_value-unflagged v w))
