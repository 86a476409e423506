-- ===== src/Value/Inspect.antt =====
-- RedisValue.cpp, `inspect`: the text of an array.
use redisclient_libary.Common.{
  Bytes, ◌≡◌, refl, [], ◌∷◌, ◌++◌, ◌∙◌, ap, codes, append_assoc, arith, ◌-◌, ℕ, suc,
}
use redisclient_libary.Value.{
  RedisValue, Values, nil, cons, array_value, inspect, inspect_items, close_bracket,
}

-- The items' texts with a comma and a space between them.
abbrev pub joined : RedisValue → Values → Bytes
joined v nil = inspect v
joined v (cons w ws) = inspect v ++ (codes ", " ++ joined w ws)

inspect_items-joined :
    (result : Bytes) (v : RedisValue) (vs : Values)
    → inspect_items result (cons v vs) ≡ (result ++ joined v vs) ++ codes ", "
unfolding inspect
inspect_items-joined result v nil = refl
inspect_items-joined result v (cons w ws) =
    inspect_items-joined ((result ++ inspect v) ++ codes ", ") w ws ∙ simp append_assoc

suc-sub-one : (n : ℕ) → suc n - 1 ≡ n
suc-sub-one n = omega arith

close_bracket-cons :
    (x y z : ℕ) (xs : Bytes) → close_bracket (x ∷ y ∷ z ∷ xs) ≡ x ∷ close_bracket (y ∷ z ∷ xs)
unfolding close_bracket
close_bracket-cons x y z xs = simp suc-sub-one

close_bracket_lem : (xs : Bytes) → close_bracket (xs ++ codes ", ") ≡ xs ++ codes "]"
close_bracket_lem [] = unfold close_bracket in refl
close_bracket_lem (x ∷ []) = unfold close_bracket in refl
close_bracket_lem (x ∷ y ∷ []) = unfold close_bracket in refl
close_bracket_lem (x ∷ y ∷ z ∷ xs) =
    close_bracket-cons x y z (xs ++ codes ", ") ∙ ap (◌∷◌ x) (close_bracket_lem (y ∷ z ∷ xs))

-- The text of a non-empty array is the texts of its items in order, with a comma and a space between
-- neighbours, in brackets.
inspect-array :
    (v : RedisValue) (vs : Values)
    → inspect (array_value (cons v vs)) ≡ codes "[" ++ (joined v vs ++ codes "]")
unfolding inspect
inspect-array v vs =
    ap close_bracket (inspect_items-joined (codes "[") v vs)
    ∙ close_bracket_lem (codes "[" ++ joined v vs)
    ∙ simp append_assoc
