-- ===== src/Tests/ParserTests.antt =====
-- The parser on concrete input.
use redisclient_libary.Common.{
  List, [], ◌∷◌, ◌++◌, ◌≡◌, ◌≤◌, ◌<◌, ℕ, length, refl, codes, arith, debug, release, Result, ok,
  fault, signed_overflow, assert_failed, leb, if◌then◌else◌,
}
use redisclient_libary.Common.Int.{pos, long_max, negate}
use redisclient_libary.Common.Decimal.{to_string, spelled}
use redisclient_libary.Value.{bytes_value, array_value, nil}
use redisclient_libary.Parser.Number.{buffer_to_long}
use redisclient_libary.Parser.Number.Exact.{buffer_to_long_exact}
use redisclient_libary.Parser.Bytewise.{run}
use redisclient_libary.Parser.Reference.{parse-run}
use redisclient_libary.Parser.Chunks.{resume, parse-append}
use redisclient_libary.Parser.Bounds.{parse_bounds}
use redisclient_libary.Parser.Print.{bulk_string, print}
use redisclient_libary.Parser.Delivery.{IsIdle, Delivers}
use redisclient_libary.Parser.Replies.{parse-print}
use redisclient_libary.Parser.Arrays.{NeverArray, perform-NeverArray}
use redisclient_libary.Parser.Calls.{parses, takes_result, perform}
use redisclient_libary.Parser.Kept.{IsSaved}
use redisclient_libary.Parser.Step.{Parser, array_size}
use redisclient_libary.Parser.Complete.{complete}
use redisclient_libary.Parser.Frames.{Frame, plug, with_frames, complete-plug}
use redisclient_libary.Parser.Nested.{IsNested, Enters, StaysNested, perform-StaysNested}
use redisclient_libary.Parser.Pieces.{ReadsPieces, print-ReadsPieces}
use redisclient_libary.Parser.{
  Parsed, ParseResult, completed, uncompleted, error, parse, new_parser, resumed, rest_states,
}

-- What a caller sees of a run.
abbrev seen : Result Parsed → Result (ℕ × ParseResult)
seen (ok r) = ok (r.consumed, r.result)
seen (fault e) = fault e

parse_simple : seen (parse release new_parser (codes "+OK\r\n:1\r\n")) ≡ ok (5, completed)
unfolding parse
parse_simple = refl

parse_bulk_part : seen (parse release new_parser (codes "$5\r\nhel")) ≡ ok (7, uncompleted)
unfolding parse buffer_to_long
parse_bulk_part = refl

parse_bad_mark : seen (parse release new_parser (codes "x+OK\r\n")) ≡ ok (1, error)
unfolding parse
parse_bad_mark = refl

-- An empty buffer gives a reply that nobody sent.
parse_empty : seen (parse release new_parser []) ≡ ok (0, completed)
unfolding parse
parse_empty = refl

-- A minus inside of a number is caught by an assertion or read as -3.
minus_inside :
    (buffer_to_long debug (codes "5-") ≡ fault assert_failed)
    × (buffer_to_long release (codes "5-") ≡ ok (pos 47))
unfolding buffer_to_long
minus_inside = (refl, refl)

-- LONG_MIN is a `long int`, and is not read.
long_min : buffer_to_long release (codes "-9223372036854775808") ≡ fault signed_overflow
unfolding buffer_to_long
long_min = refl

new-IsIdle : IsIdle new_parser
new-IsIdle = record { no_state = refl; no_array = refl }

buffer_to_long_exact_example :
    (buffer_to_long debug (codes "042") ≡ (
      if leb (spelled 0 (codes "042")) long_max
      then ok (pos (spelled 0 (codes "042")))
      else fault signed_overflow))
    × (buffer_to_long debug (b'-' ∷ codes "042") ≡ (
        if leb (spelled 0 (codes "042")) long_max
        then ok (negate (spelled 0 (codes "042")))
        else fault signed_overflow))
buffer_to_long_exact_example = buffer_to_long_exact debug (codes "042") (omega arith)

parse-run_example :
    parse debug new_parser (codes "$2\r\nab\r\n")
    ≡ run debug
        (resumed new_parser.states)
        (record new_parser { states = rest_states new_parser.states })
        0
        (codes "$2\r\nab\r\n")
parse-run_example = parse-run debug new_parser (codes "$2\r\nab\r\n")

parse-append_example :
    parse debug new_parser (b'$' ∷ codes "2\r\na" ++ codes "b\r\n")
    ≡ resume debug (codes "b\r\n") (parse debug new_parser (b'$' ∷ codes "2\r\na"))
parse-append_example = parse-append debug new_parser b'$' (codes "2\r\na") (codes "b\r\n")

abbrev after_plus : Parsed
after_plus = record {
  consumed = 5;
  result = completed;
  parser = record new_parser { buf = codes "OK"; redis_value = bytes_value (codes "OK") };
}

parse_plus : parse debug new_parser (codes "+OK\r\n") ≡ ok after_plus
unfolding parse
parse_plus = refl

parse_bounds_example :
    (0 < after_plus.consumed)
    × (after_plus.consumed ≤ length (codes "+OK\r\n"))
    × (after_plus.result ≡ uncompleted → after_plus.consumed ≡ length (codes "+OK\r\n"))
parse_bounds_example = parse_bounds debug new_parser b'+' (codes "OK\r\n") after_plus parse_plus

parse-print_example :
    Delivers
      (parse release new_parser (print (bulk_string (codes "a\r\nb")) (codes ":1")))
      (length (print (bulk_string (codes "a\r\nb")) []))
      (bytes_value (codes "a\r\nb"))
parse-print_example =
    parse-print release new_parser (bulk_string (codes "a\r\nb")) (codes ":1") new-IsIdle
      (omega arith)

perform-NeverArray_example : NeverArray (
    perform debug new_parser (parses (codes "*1\r\n") ∷ takes_result ∷ parses (codes "+\r\n") ∷ []))
perform-NeverArray_example =
    perform-NeverArray debug (parses (codes "*1\r\n") ∷ takes_result ∷ parses (codes "+\r\n") ∷ [])

-- A parser that is to read the size of an array inside of an array with an item to come.
abbrev inner_array : Parser
inner_array = record new_parser {
  states = array_size ∷ [];
  array_sizes = pos 2 ∷ [];
  array_values = array_value nil ∷ [];
}

inner_array-IsSaved : IsSaved IsNested Enters inner_array
inner_array-IsSaved = record {
  good = record {
    nests = record {
      frames = record { items = nil; later = 1 } ∷ [];
      sizes_of = refl;
      values_of = refl;
    };
    no_states = refl;
  };
  entered = tt;
}

perform-StaysNested_example :
    StaysNested (
      perform debug inner_array (parses (codes "2\r\n+a\r\n") ∷ parses (codes ":7\r\n:8\r\n") ∷ []))
perform-StaysNested_example =
    perform-StaysNested debug inner_array
      (parses (codes "2\r\n+a\r\n") ∷ parses (codes ":7\r\n:8\r\n") ∷ []) inner_array-IsSaved

-- The last item of an inner array closes it, and it is an item of the outer one.
abbrev two_open : List Frame
two_open = record { items = nil; later = 0 } ∷ record { items = nil; later = 1 } ∷ []

abbrev with_item : Parser
with_item = record new_parser { redis_value = bytes_value (codes "x") }

complete-plug_example :
    complete debug (with_frames with_item two_open)
    ≡ ok (
        with_frames
          (record with_item { redis_value = (plug with_item.redis_value two_open).0 })
          (plug with_item.redis_value two_open).1)
complete-plug_example = complete-plug debug with_item two_open

print-ReadsPieces_example :
    ReadsPieces debug
      (bytes_value (codes "a\r\nb"))
      new_parser
      (codes "$" ∷ codes "4\r" ∷ codes "\na\r" ∷ codes "\nb\r" ∷ codes "\n" ∷ [])
unfolding to_string
print-ReadsPieces_example =
    print-ReadsPieces debug new_parser (bulk_string (codes "a\r\nb")) (codes "$")
      (codes "4\r" ∷ codes "\na\r" ∷ codes "\nb\r" ∷ codes "\n" ∷ []) new-IsIdle (omega arith)
      (omega arith, (omega arith, (omega arith, (omega arith, (omega arith, tt))))) refl

-- The inputs of the repository's tests. An array's first line waits for a payload of that size.
parse_array_mark : seen (parse release new_parser (codes "*1\r\n")) ≡ ok (4, uncompleted)
unfolding parse buffer_to_long
parse_array_mark = refl

parse_empty_array : seen (parse release new_parser (codes "*0\r\n")) ≡ ok (4, uncompleted)
unfolding parse buffer_to_long
parse_empty_array = refl

parse_bad_size : seen (parse release new_parser (codes "*xx\r\n")) ≡ ok (2, error)
unfolding parse buffer_to_long
parse_bad_size = refl
