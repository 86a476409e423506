-- ===== src/Parser/Delivery.antt =====
-- Runs of the parser that end in a value, and what the bytes of a line do.
use redisclient_libary.Common.{
  Bytes, false, [], ◌∷◌, ◌++◌, ℕ, zero, suc, ◌+◌, length, Build, Result, ok, ◌≡◌, ◌≢◌, refl, ap,
  ◌∙◌, sym, arith, All, length-append,
}
use redisclient_libary.Common.Int.{ℤ, pos, negsuc}
use redisclient_libary.Common.Decimal.{
  IsDigit, to_string, to_string_int, to_string-IsDigit, to_string-ne-nil,
}
use redisclient_libary.Value.{RedisValue, int_value}
use redisclient_libary.Parser.Number.{buffer_to_long}
use redisclient_libary.Parser.Number.Exact.{buffer_to_long-to_string_int}
use redisclient_libary.Parser.Print.{bulk_string, print}
use redisclient_libary.Parser.Step.{
  Statement, Parser, is_start, goto, step, start, integer, integer_lf, bulk_size, bulk_size_lf,
  sized,
}
use redisclient_libary.Parser.Bytewise.{run, bulk_next, bulk_next-suc}
use redisclient_libary.Parser.Reference.{read_available-nil}
use redisclient_libary.Parser.Lines.{run_goto, run_done, IsNumeral}
use redisclient_libary.Parser.{Parsed, completed}

pub record IsIdle (p : Parser) : Type 0 where
  pub no_state : p.states ≡ []
  pub no_array : p.array_sizes ≡ []

-- The value that a run finds, and where it ends.
pub record Delivers (r : Result Parsed) (end : ℕ) (v : RedisValue) : Type 0 where
  pub parser : Parser
  pub found : r ≡ ok (record { consumed = end; result = completed; parser = parser })
  pub value : parser.redis_value ≡ v
  pub idle : IsIdle parser

-- The last two bytes of a line, in front of `rest`.
pub run_line_end :
    (build : Build) (s s' : Statement) (p q : Parser) (n : ℕ) (rest : Bytes)
    → step build s p b'\r' [] ≡ ok (goto s' p 0)
    → is_start s' ≡ false
    → step build s' p b'\n' [] ≡ ok (goto start q 0)
    → IsIdle q
    → Delivers (run build s p n (b'\r' ∷ b'\n' ∷ rest)) (n + 2) q.redis_value
run_line_end build s s' p q n rest cr not_start lf idle = record {
  parser = q;
  found =
      run_goto build s s' p p n b'\r' (b'\n' ∷ rest) cr not_start
      ∙ run_done build s' p q (n + 1) b'\n' rest lf idle.no_array
      ∙ ap (λ i. ok (record { consumed = i; result = completed; parser = q })) (omega arith);
  value = refl;
  idle = idle;
}

pub Delivers-path :
    {r r' : Result Parsed} {end end' : ℕ} {v : RedisValue}
    → r ≡ r'
    → end' ≡ end
    → Delivers r' end' v
    → Delivers r end v
Delivers-path e f d = record {
  parser = d.parser;
  found =
      e ∙ d.found ∙ ap (λ i. ok (record { consumed = i; result = completed; parser = d.parser })) f;
  value = d.value;
  idle = d.idle;
}

pub length_line : (s : Bytes) → 1 + length s + 2 ≡ suc (length (s ++ b'\r' ∷ b'\n' ∷ []))
length_line s = omega (arith, length-append s (b'\r' ∷ b'\n' ∷ []))

All-map : {P Q : ℕ → Type 0} (xs : Bytes) → ((c : ℕ) → P c → Q c) → All P xs → All Q xs
All-map [] f a = tt
All-map (x ∷ xs) f a = (f x a.0, All-map xs f a.1)

pub digit-IsNumeral : (c : ℕ) → IsDigit c → IsNumeral c
digit-IsNumeral c h = ground arith

pub to_string-IsNumeral : (n : ℕ) → All IsNumeral (to_string n)
to_string-IsNumeral n = All-map (to_string n) digit-IsNumeral (to_string-IsDigit n)

pub to_string_int-IsNumeral : (i : ℤ) → All IsNumeral (to_string_int i)
unfolding to_string_int
to_string_int-IsNumeral (pos n) = to_string-IsNumeral n
to_string_int-IsNumeral (negsuc n) = (refl, to_string-IsNumeral (suc n))

pub to_string_int-ne-nil : (i : ℤ) → to_string_int i ≢ []
unfolding to_string_int
to_string_int-ne-nil (pos n) = to_string-ne-nil n
to_string_int-ne-nil (negsuc n) = cc

-- The carriage return behind a number that is not empty.
pub integer-cr :
    (build : Build) (p : Parser) (xs : Bytes)
    → xs ≢ []
    → p.buf ≡ xs
    → step build integer p b'\r' [] ≡ ok (goto integer_lf p 0)
unfolding step
integer-cr build p [] h e = absurd (h refl)
integer-cr build p (x ∷ xs) h e = rw (e, step)

pub bulk_size-cr :
    (build : Build) (p : Parser) (xs : Bytes)
    → xs ≢ []
    → p.buf ≡ xs
    → step build bulk_size p b'\r' [] ≡ ok (goto bulk_size_lf p 0)
unfolding step
bulk_size-cr build p [] h e = absurd (h refl)
bulk_size-cr build p (x ∷ xs) h e = rw (e, step)

pub integer-lf :
    (build : Build) (p : Parser) (i : ℤ)
    → buffer_to_long build p.buf ≡ ok i
    → step build integer_lf p b'\n' []
      ≡ ok (goto start (record p { redis_value = int_value i; buf = [] }) 0)
unfolding step
integer-lf build p i e = rw e

pub bulk_size-lf :
    (build : Build) (p : Parser) (i : ℤ)
    → buffer_to_long build p.buf ≡ ok i
    → step build bulk_size_lf p b'\n' [] ≡ ok (sized (record p { bulk_size = i; buf = [] }) i [])
unfolding step
bulk_size-lf build p i e = rw e

pub minus_one : (build : Build) → buffer_to_long build (b'-' ∷ b'1' ∷ []) ≡ ok (negsuc 0)
unfolding to_string_int
minus_one build = buffer_to_long-to_string_int build (negsuc 0) (omega arith)

pub sized-pos :
    (p : Parser) (n : ℕ)
    → sized (record p { bulk_size = pos n; buf = [] }) (pos n) []
      ≡ goto (bulk_next n) (record p { bulk_size = pos n; buf = [] }) 0
unfolding sized
sized-pos p zero = refl
sized-pos p (suc n) =
    read_available-nil p n
    ∙ ap (λ t. goto t (record p { bulk_size = pos (suc n); buf = [] }) 0) (sym (bulk_next-suc n))

pub bulk_next-not_start : (n : ℕ) → is_start (bulk_next n) ≡ false
unfolding is_start
bulk_next-not_start n = ground arith

pub length_payload :
    (s : Bytes)
    → 3 + length (to_string (length s)) + length s + 2 ≡ length (print (bulk_string s) [])
length_payload s = omega (
  arith,
  length-append (to_string (length s)) (b'\r' ∷ b'\n' ∷ (s ++ b'\r' ∷ b'\n' ∷ [])),
  length-append s (b'\r' ∷ b'\n' ∷ []),
)
