-- ===== src/Tests/ValueTests.antt =====
-- Values and requests on concrete input.
use redisclient_libary.Common.{
  release, true, false, [], ◌∷◌, ◌++◌, List, ◌≡◌, ◌↔◌, refl, codes, some,
}
use redisclient_libary.Common.Int.{negsuc}
use redisclient_libary.Common.Decimal.{to_string, to_string_int}
use redisclient_libary.Value.{
  Values, nil, cons, int_value, bytes_value, error_value, null_value, array_value, inspect,
  eq_value, ne_value,
}
use redisclient_libary.Value.Access.{IsAccessible, accessors-IsAccessible}
use redisclient_libary.Value.Equality.{unflagged, eq_value_exact}
use redisclient_libary.Buffer.{RedisBuffer, text, raw}
use redisclient_libary.Command.{make_command}
use redisclient_libary.Command.Decode.{read_request}
use redisclient_libary.Command.RoundTrip.{read_request-make_command}

abbrev items : Values
items = cons (int_value (negsuc 4)) (cons (error_value (codes "no")) nil)

inspect_nested :
    inspect (array_value (cons null_value (cons (array_value items) nil)))
    ≡ codes "[(null), [-5, error: no]]"
unfolding inspect to_string_int
inspect_nested = refl

inspect_empty : inspect (array_value nil) ≡ codes "[]"
unfolding inspect
inspect_empty = refl

-- An error reply equals a string of the same bytes.
error_eq_string : eq_value (error_value (codes "x")) (bytes_value (codes "x")) ≡ true
unfolding eq_value
error_eq_string = refl

abbrev set_command : List RedisBuffer
set_command = text (codes "SET") ∷ raw (codes "k") ∷ text (codes "v\r\n") ∷ []

make_command_set : make_command set_command ≡ codes "*3\r\n$3\r\nSET\r\n$1\r\nk\r\n$3\r\nv\r\n\r\n"
unfolding make_command to_string
make_command_set = refl

eq_value_exact_example :
    ((eq_value (error_value (codes "x")) (bytes_value (codes "x")) ≡ true)
      ↔ (unflagged (error_value (codes "x")) ≡ unflagged (bytes_value (codes "x"))))
    × ((ne_value (error_value (codes "x")) (bytes_value (codes "x")) ≡ false)
        ↔ (unflagged (error_value (codes "x")) ≡ unflagged (bytes_value (codes "x"))))
eq_value_exact_example = eq_value_exact (error_value (codes "x")) (bytes_value (codes "x"))

read_request-make_command_example :
    read_request (make_command set_command ++ codes "tail")
    ≡ some (codes "SET" ∷ codes "k" ∷ codes "v\r\n" ∷ [], codes "tail")
read_request-make_command_example = read_request-make_command set_command (codes "tail")

accessors-IsAccessible_example : IsAccessible release (error_value (codes "no"))
accessors-IsAccessible_example = accessors-IsAccessible release (error_value (codes "no"))
