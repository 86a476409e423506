-- ===== src/Parser/Arrays.antt =====
-- The replies that arrays would need: what the parser does with them.
use redisclient_libary.Common.{
  Bytes, false, List, [], ◌∷◌, ◌++◌, ◌≤◌, length, Build, assert_failed, signed_overflow, Result, ok,
  fault, ◌≡◌, ◌⊎◌, refl, ap, ◌∙◌, sym,
}
use redisclient_libary.Common.Int.{pos, long_max}
use redisclient_libary.Common.Decimal.{to_string}
use redisclient_libary.Value.{is_array, bytes_value}
use redisclient_libary.Parser.Kept.{IsSaved}
use redisclient_libary.Parser.Calls.{Call, perform, number_fault, PerformKept, perform-Kept}
use redisclient_libary.Parser.Flat.{IsFlat, Enters, IsFlat-Kept, result-IsSaved}
use redisclient_libary.Parser.Print.{bulk_string, print}
use redisclient_libary.Parser.Delivery.{IsIdle, Delivers, Delivers-path}
use redisclient_libary.Parser.Replies.{parse-print, run-idle}
use redisclient_libary.Parser.Step.{Parser, start, bulk_size, step, is_start}
use redisclient_libary.Parser.Lines.{run_goto}
use redisclient_libary.Parser.Bytewise.{run}
use redisclient_libary.Parser.{parse, new_parser}

abbrev pub NeverArray : Result Parser → Type 0
NeverArray (ok p) = (is_array p.redis_value ≡ false) × (p.array_sizes ≡ [])
NeverArray (fault e) = (e ≡ assert_failed) ⊎ (e ≡ signed_overflow)

PerformKept-NeverArray : (r : Result Parser) → PerformKept IsFlat Enters r → NeverArray r
PerformKept-NeverArray (ok p) v = (v.good.not_array, v.good.no_sizes)
PerformKept-NeverArray (fault e) h = number_fault e h

pub new-IsSaved : IsSaved IsFlat Enters new_parser
new-IsSaved = record {
  good = record {
    no_sizes = refl;
    no_values = refl;
    not_array = unfold is_array in refl;
    no_states = refl;
  };
  entered = tt;
}

-- Whatever bytes a new parser is given, in any pieces and with any calls of `result` between them,
-- its value is never an array and it never opens one. A call that does not return failed in
-- `bufferToLong`, at the assertion or by an overflow.
pub perform-NeverArray :
    (build : Build) (calls : List Call) → NeverArray (perform build new_parser calls)
perform-NeverArray build calls =
    PerformKept-NeverArray (perform build new_parser calls)
      (perform-Kept IsFlat Enters build new_parser calls IsFlat-Kept result-IsSaved new-IsSaved)

run-star :
    (build : Build) (p : Parser) (rest : Bytes)
    → p.bulk_size ≡ pos 0
    → run build start p 0 (b'*' ∷ rest) ≡ run build start p 0 (b'$' ∷ rest)
unfolding step is_start
run-star build p rest e =
    run_goto build start bulk_size p (record p { buf = []; bulk_size = pos 0 }) 0 b'*' rest refl
      refl
    ∙ ap (λ i. run build bulk_size (record p { buf = []; bulk_size = i }) 1 rest) (sym e)
    ∙ sym (run_goto build start bulk_size p (record p { buf = [] }) 0 b'$' rest refl refl)

-- Between replies a parser takes the mark of an array for that of a bulk string: the two give the
-- same result, whatever follows, when no size is left over from an earlier payload.
pub parse-star :
    (build : Build) (p : Parser) (rest : Bytes)
    → IsIdle p
    → p.bulk_size ≡ pos 0
    → parse build p (b'*' ∷ rest) ≡ parse build p (b'$' ∷ rest)
parse-star build p rest idle e =
    run-idle build p _ idle ∙ run-star build p rest e ∙ sym (run-idle build p _ idle)

-- Between replies, with no size left over from an earlier payload, what should be an array of `n`
-- items is read as the bulk string of the `n` bytes behind its first line, if a line's end follows
-- them and `n` fits a `long int`.
parse_star_payload :
    (build : Build) (p : Parser) (s rest : Bytes)
    → IsIdle p
    → p.bulk_size ≡ pos 0
    → length s ≤ long_max
    → Delivers
        (parse build p
          (b'*' ∷ (to_string (length s) ++ (b'\r' ∷ b'\n' ∷ (s ++ (b'\r' ∷ b'\n' ∷ rest))))))
        (length (print (bulk_string s) []))
        (bytes_value s)
parse_star_payload build p s rest idle e h =
    Delivers-path (parse-star build p _ idle e) refl
      (parse-print build p (bulk_string s) rest idle h)
