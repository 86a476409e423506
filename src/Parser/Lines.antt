-- ===== src/Parser/Lines.antt =====
-- Runs of the parser over the pieces of a reply.
use redisclient_libary.Common.{
  Bytes, true, false, [], ◌∷◌, ◌++◌, ℕ, ◌+◌, ◌==◌, ◌||◌, length, Build, ok, ◌≡◌, ap, ◌∙◌, sym,
  arith, All, append_assoc, append-nil,
}
use redisclient_libary.Parser.Step.{
  Statement, Parser, goto, step, is_start, push, start, string, error_string, integer, bulk_size,
  is_digit,
}
use redisclient_libary.Parser.Print.{IsText}
use redisclient_libary.Parser.Bytewise.{run}
use redisclient_libary.Parser.{completed, after, leave, break_out}

-- A byte that leads to another state inside a reply.
pub run_goto :
    (build : Build) (s s' : Statement) (p q : Parser) (n c : ℕ) (rest : Bytes)
    → step build s p c [] ≡ ok (goto s' q 0)
    → is_start s' ≡ false
    → run build s p n (c ∷ rest) ≡ run build s' q (n + 1) rest
unfolding run after
run_goto build s s' p q n c rest e h = rw (e, h)

after-start :
    (build : Build) (q : Parser)
    → q.array_sizes ≡ []
    → after build (goto start q 0) ≡ ok (break_out start q 0)
unfolding after
after-start build q h = ground arith

leave-start :
    (q : Parser) (n : ℕ)
    → q.array_sizes ≡ []
    → leave start q n ≡ record { consumed = n; result = completed; parser = q }
unfolding leave
leave-start q n h = ground arith

-- The byte that ends a reply outside of any array.
pub run_done :
    (build : Build) (s : Statement) (p q : Parser) (n c : ℕ) (rest : Bytes)
    → step build s p c [] ≡ ok (goto start q 0)
    → q.array_sizes ≡ []
    → run build s p n (c ∷ rest) ≡ ok (record { consumed = n + 1; result = completed; parser = q })
unfolding run
run_done build s p q n c rest e h = rw e (
    rw (after-start build q h) (
      ap ok (leave-start q (n + 1 + 0) h)
      ∙ ap (λ i. ok (record { consumed = i; result = completed; parser = q })) (omega arith)))

-- Bytes that the state collects.
pub run_pushes :
    (build : Build) (s : Statement) (P : ℕ → Type 0) (xs : Bytes) (p : Parser) (n : ℕ)
    (rest : Bytes)
    → ((q : Parser) (c : ℕ) → P c → step build s q c [] ≡ ok (goto s (push q c) 0))
    → is_start s ≡ false
    → All P xs
    → run build s p n (xs ++ rest)
      ≡ run build s (record p { buf = p.buf ++ xs }) (n + length xs) rest
run_pushes build s P [] p n rest each h a =
    ap (λ b. run build s (record p { buf = b }) n rest) (sym (append-nil p.buf))
    ∙ ap (λ i. run build s (record p { buf = p.buf ++ [] }) i rest) (omega arith)
run_pushes build s P (x ∷ xs) p n rest each h a =
    run_goto build s s p (push p x) n x (xs ++ rest) (each p x a.0) h
    ∙ run_pushes build s P xs (push p x) (n + 1) rest each h a.1
    ∙ ap (λ b. run build s (record p { buf = b }) (n + 1 + length xs) rest)
        (append_assoc p.buf (x ∷ []) xs)
    ∙ ap (λ i. run build s (record p { buf = p.buf ++ x ∷ xs }) i rest) (omega arith)

-- What the states do with one byte.
pub string-text :
    (build : Build) (q : Parser) (c : ℕ)
    → IsText c
    → step build string q c [] ≡ ok (goto string (push q c) 0)
unfolding step
string-text build q c h = ground arith

pub error_string-text :
    (build : Build) (q : Parser) (c : ℕ)
    → IsText c
    → step build error_string q c [] ≡ ok (goto error_string (push q c) 0)
unfolding step
error_string-text build q c h = ground arith

-- The bytes of a number.
abbrev pub IsNumeral : ℕ → Type 0
IsNumeral c = (is_digit c || c == b'-') ≡ true

pub integer-numeral :
    (build : Build) (q : Parser) (c : ℕ)
    → IsNumeral c
    → step build integer q c [] ≡ ok (goto integer (push q c) 0)
unfolding step
integer-numeral build q c h = ground arith

pub bulk_size-numeral :
    (build : Build) (q : Parser) (c : ℕ)
    → IsNumeral c
    → step build bulk_size q c [] ≡ ok (goto bulk_size (push q c) 0)
unfolding step
bulk_size-numeral build q c h = ground arith
