-- ===== src/Parser/Replies.antt =====
-- `parse` reads back the replies that a server prints.
use redisclient_libary.Parser.Delivery.{
  IsIdle, Delivers, run_line_end, Delivers-path, length_line, to_string-IsNumeral,
  to_string_int-IsNumeral, to_string_int-ne-nil, integer-cr, bulk_size-cr, integer-lf, bulk_size-lf,
  minus_one, sized-pos, bulk_next-not_start, length_payload,
}
use mathlib.Core.Path.{subst}
use mathlib.Core.List.{cons-ne-nil}
use redisclient_libary.Common.{
  Bytes, [], ◌∷◌, ◌++◌, ℕ, ◌+◌, ◌≤◌, length, Build, ok, ◌≡◌, refl, ap, ◌∙◌, sym, arith, All,
}
use redisclient_libary.Common.Int.{ℤ, pos, negsuc, IsSymmetric, long_max}
use redisclient_libary.Common.Decimal.{to_string, to_string_int, to_string-ne-nil}
use redisclient_libary.Value.{bytes_value, error_value, int_value, null_value}
use redisclient_libary.Parser.Number.Exact.{buffer_to_long-to_string, buffer_to_long-to_string_int}
use redisclient_libary.Parser.Print.{
  Reply, simple, failure, number, nil_bulk, bulk_string, print, IsText, IsSendable, meaning,
}
use redisclient_libary.Parser.Step.{
  Parser, is_start, step, start, string, string_lf, error_string, error_lf, integer, integer_lf,
  bulk_size, bulk_size_lf, bulk_cr, bulk_lf,
}
use redisclient_libary.Parser.Bytewise.{run, run_bulk, bulk_next, bulk_next-suc}
use redisclient_libary.Parser.Reference.{parse-run}
use redisclient_libary.Parser.Lines.{
  run_goto, run_pushes, string-text, error_string-text, integer-numeral, bulk_size-numeral,
  IsNumeral,
}
use redisclient_libary.Parser.{parse, resumed, rest_states}

-- A parser that waits for a reply, outside of any array.
module _ (build : Build) (p : Parser) (idle : IsIdle p) (rest : Bytes) where
  read_simple :
      (s : Bytes)
      → All IsText s
      → Delivers
          (run build start p 0 (print (simple s) rest))
          (length (print (simple s) []))
          (bytes_value s)
  unfolding step is_start
  read_simple s a =
      let q = record p { buf = s } in
      Delivers-path
        (run_goto build start string p (record p { buf = [] }) 0 b'+' _ refl refl
          ∙ run_pushes build string IsText s (record p { buf = [] }) 1 _ (string-text build) refl a)
        (length_line s)
        (run_line_end build string string_lf q (record q { redis_value = bytes_value s })
          (1 + length s) rest refl refl refl
          (record { no_state = idle.no_state; no_array = idle.no_array }))

  read_failure :
      (s : Bytes)
      → All IsText s
      → Delivers
          (run build start p 0 (print (failure s) rest))
          (length (print (failure s) []))
          (error_value s)
  unfolding step is_start
  read_failure s a =
      let q = record p { buf = s } in
      Delivers-path
        (run_goto build start error_string p (record p { buf = [] }) 0 b'-' _ refl refl
          ∙ run_pushes build error_string IsText s (record p { buf = [] }) 1 _
              (error_string-text build) refl a)
        (length_line s)
        (run_line_end build error_string error_lf q (record q { redis_value = error_value s })
          (1 + length s) rest refl refl refl
          (record { no_state = idle.no_state; no_array = idle.no_array }))

  read_number :
      (i : ℤ)
      → IsSymmetric i
      → Delivers
          (run build start p 0 (print (number i) rest))
          (length (print (number i) []))
          (int_value i)
  unfolding step is_start
  read_number i h =
      let s = to_string_int i in
      let q = record p { buf = s } in
      Delivers-path
        (run_goto build start integer p (record p { buf = [] }) 0 b':' _ refl refl
          ∙ run_pushes build integer IsNumeral s (record p { buf = [] }) 1 _ (integer-numeral build)
              refl (to_string_int-IsNumeral i))
        (length_line s)
        (run_line_end build integer integer_lf q (record q { redis_value = int_value i; buf = [] })
          (1 + length s) rest (integer-cr build q s (to_string_int-ne-nil i) refl) refl
          (integer-lf build q i (buffer_to_long-to_string_int build i h))
          (record { no_state = idle.no_state; no_array = idle.no_array }))

  IsIdle-with : {q : Parser} → q.states ≡ p.states → q.array_sizes ≡ p.array_sizes → IsIdle q
  IsIdle-with e f = record { no_state = e ∙ idle.no_state; no_array = f ∙ idle.no_array }

  -- The digits of a payload's size, up to the carriage return.
  run_size :
      (s : Bytes) (more : Bytes)
      → All IsNumeral s
      → run build start p 0 (b'$' ∷ (s ++ more))
        ≡ run build bulk_size (record p { buf = s }) (1 + length s) more
  unfolding step is_start
  run_size s more a =
      run_goto build start bulk_size p (record p { buf = [] }) 0 b'$' _ refl refl
      ∙ run_pushes build bulk_size IsNumeral s (record p { buf = [] }) 1 more
          (bulk_size-numeral build) refl a

  read_nil : Delivers (run build start p 0 (print nil_bulk rest)) 5 null_value
  unfolding step is_start
  read_nil =
      let s : Bytes = b'-' ∷ b'1' ∷ [] in
      let q = record p { buf = s } in
      Delivers-path (run_size s (b'\r' ∷ b'\n' ∷ rest) (refl, (refl, tt))) (omega arith) (
        run_line_end build bulk_size bulk_size_lf q
          (record q { bulk_size = negsuc 0; buf = []; redis_value = null_value }) 3 rest
          (bulk_size-cr build q s (cons-ne-nil b'-' _) refl) refl
          (bulk_size-lf build q (negsuc 0) (minus_one build)) (IsIdle-with refl refl))

  -- The line of a size that is a natural number.
  run_size_line :
      (n : ℕ) (more : Bytes)
      → n ≤ long_max
      → run build start p 0 (b'$' ∷ (to_string n ++ (b'\r' ∷ b'\n' ∷ more)))
        ≡ run build
            (bulk_next n)
            (record p { bulk_size = pos n; buf = [] })
            (3 + length (to_string n))
            more
  unfolding step is_start
  run_size_line n more h =
      let s = to_string n in
      let q = record p { buf = s } in
      run_size s (b'\r' ∷ b'\n' ∷ more) (to_string-IsNumeral n)
      ∙ run_goto build bulk_size bulk_size_lf q q (1 + length s) b'\r' (b'\n' ∷ more)
          (bulk_size-cr build q s (to_string-ne-nil n) refl) refl
      ∙ run_goto build bulk_size_lf (bulk_next n) q (record q { bulk_size = pos n; buf = [] })
          (1 + length s + 1) b'\n' more
          (bulk_size-lf build q (pos n) (buffer_to_long-to_string build n h)
            ∙ ap ok (sized-pos p n))
          (bulk_next-not_start n)
      ∙ ap (λ k. run build (bulk_next n) (record q { bulk_size = pos n; buf = [] }) k more)
          (omega arith)

  read_payload_end :
      (q : Parser) (s : Bytes) (k : ℕ)
      → IsIdle q
      → q.buf ≡ s
      → Delivers (run build bulk_cr q k (b'\r' ∷ b'\n' ∷ rest)) (k + 2) (bytes_value s)
  unfolding step is_start
  read_payload_end q s k e b =
      subst (λ x. Delivers (run build bulk_cr q k (b'\r' ∷ b'\n' ∷ rest)) (k + 2) (bytes_value x)) b
        (run_line_end build bulk_cr bulk_lf q (record q { redis_value = bytes_value q.buf }) k rest
          refl refl refl (record { no_state = e.no_state; no_array = e.no_array }))

  read_bulk_string :
      (s : Bytes)
      → length s ≤ long_max
      → Delivers
          (run build start p 0 (print (bulk_string s) rest))
          (length (print (bulk_string s) []))
          (bytes_value s)
  read_bulk_string [] h =
      Delivers-path (run_size_line 0 (b'\r' ∷ b'\n' ∷ rest) (omega arith))
        (omega (arith, length_payload []))
        (read_payload_end (record p { bulk_size = pos 0; buf = [] }) [] _ (IsIdle-with refl refl)
          refl)
  read_bulk_string (x ∷ xs) h =
      let s = x ∷ xs in
      let q = record p { bulk_size = pos (length s); buf = [] } in
      Delivers-path
        (run_size_line (length s) (s ++ (b'\r' ∷ b'\n' ∷ rest)) h
          ∙ ap
              (λ t. run build t q (3 + length (to_string (length s))) (s ++ (b'\r' ∷ b'\n' ∷ rest)))
              (bulk_next-suc (length xs))
          ∙ run_bulk build s q _ 0 (b'\r' ∷ b'\n' ∷ rest) (omega arith) (ap pos (omega arith)))
        (length_payload s)
        (read_payload_end (record q { bulk_size = pos 0; buf = s }) s _ (IsIdle-with refl refl)
          refl)

pub read_reply :
    (build : Build) (p : Parser) (r : Reply) (rest : Bytes)
    → IsIdle p
    → IsSendable r
    → Delivers (run build start p 0 (print r rest)) (length (print r [])) (meaning r)
read_reply build p (simple s) rest idle h = read_simple build p idle rest s h
read_reply build p (failure s) rest idle h = read_failure build p idle rest s h
read_reply build p (number i) rest idle h = read_number build p idle rest i h
read_reply build p nil_bulk rest idle h = read_nil build p idle rest
read_reply build p (bulk_string s) rest idle h = read_bulk_string build p idle rest s h

pub run-idle :
    (build : Build) (p : Parser) (a : Bytes) → IsIdle p → parse build p a ≡ run build start p 0 a
run-idle build p a idle =
    parse-run build p a
    ∙ ap (λ l. run build (resumed l) (record p { states = rest_states l }) 0 a) idle.no_state
    ∙ ap (λ l. run build start (record p { states = l }) 0 a) (sym idle.no_state)

-- A parser that waits for a reply reads back what a server prints, whatever stands behind it in the
-- buffer: the value that was sent, at the last byte of the reply, and waits for a reply again. This
-- is so for lines of printable ASCII, integers other than LONG_MIN, nil, and payloads of any bytes.
pub parse-print :
    (build : Build) (p : Parser) (r : Reply) (rest : Bytes)
    → IsIdle p
    → IsSendable r
    → Delivers (parse build p (print r rest)) (length (print r [])) (meaning r)
parse-print build p r rest idle h =
    Delivers-path (run-idle build p (print r rest) idle) refl (read_reply build p r rest idle h)
