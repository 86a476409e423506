-- ===== src/Parser/Reference.antt =====
-- The equality of the loop of `parseChunk` with the parser that is given one byte at a time.
use redisclient_libary.Parser.Bytewise.{
  run, in_bulk, step-bulk, bulk_next, run_bulk, step-Single, bind-Single, conclude-Single,
}
use redisclient_libary.Common.{
  Bytes, true, [], ◌∷◌, ℕ, zero, suc, ◌+◌, ◌-◌, ◌≤◌, ◌<◌, ◌==◌, length, drop, take, Build, Result,
  ok, fault, ◌>>=◌, ◌≡◌, refl, ap, ◌∙◌, sym, arith, min, Bool-cases, ◌⊎◌, inl, inr,
  take-append-drop, length-take, length-drop,
}
use native.Mathlib.Nat.{add-zero}
use redisclient_libary.Common.Int.{ℤ, pos, negsuc}
use redisclient_libary.Parser.Number.{buffer_to_long}
use redisclient_libary.Parser.Step.{
  Statement, Parser, goto, step, bulk, bulk_size_lf, read_available, read_bulk, read_available,
}
use redisclient_libary.Parser.{go_on, after, loop, conclude, parse, resumed, rest_states}

abbrev LoopGoal : Build → ℕ → Statement → Parser → ℕ → Bytes → Type 0
LoopGoal build f s p n rest = loop build f s p n rest ≡ run build s p n rest

-- A round that reads no further than `c`.
loop_single :
    (build : Build) (f : ℕ) (s : Statement) (p : Parser) (n c : ℕ) (rest : Bytes)
    → step build s p c rest ≡ step build s p c []
    → ((s' : Statement) (q : Parser) → LoopGoal build f s' q (n + 1) rest)
    → LoopGoal build (suc f) s p n (c ∷ rest)
loop_single build f s p n c rest e ih =
    unfold loop run in
    rw e (
      conclude-Single _ _ n (step build s p c [] >>= after build)
        (bind-Single build (step build s p c []) (step-Single build s p c))
        (λ s' q. rw (add-zero (n + 1)) (ih s' q)))

-- As much of a payload as one read finds.
run_payload :
    (build : Build) (p : Parser) (n m k : ℕ) (rest : Bytes)
    → 0 < k
    → k ≤ length rest
    → k ≤ m
    → p.bulk_size ≡ pos m
    → run build bulk p n rest
      ≡ run build (bulk_next (m - k)) (in_bulk p (m - k) (take k rest)) (n + k) (drop k rest)
run_payload build p n m k rest h l b e =
    ap (run build bulk p n) (sym (take-append-drop k rest))
    ∙ run_bulk build (take k rest) p n (m - k) (drop k rest) (omega (arith, length-take k rest l))
        (e ∙ ap pos (omega (arith, length-take k rest l)))
    ∙ ap
        (λ x. run build (bulk_next (m - k)) (in_bulk p (m - k) (take k rest)) (n + x) (drop k rest))
        (length-take k rest l)

suc-sub-suc : (a b : ℕ) → suc a - suc b ≡ a - b
suc-sub-suc a b = omega arith

suc-sub-one : (a : ℕ) → suc a - 1 ≡ a
suc-sub-one a = omega arith

read_bulk_lem :
    (p : Parser) (m c : ℕ) (rest : Bytes) (j : ℕ)
    → min (length rest + 1) (suc m) ≡ suc j
    → read_bulk p (suc m) c rest ≡ goto (bulk_next (m - j)) (in_bulk p (m - j) (c ∷ take j rest)) j
unfolding read_bulk
read_bulk_lem p m c rest j e = rw (e, suc-sub-suc m j, suc-sub-one j)

after-bulk_next :
    (build : Build) (m : ℕ) (p : Parser) (k : ℕ)
    → after build (goto (bulk_next m) p k) ≡ ok (go_on (bulk_next m) p k)
unfolding after
after-bulk_next build m p k = ground arith

add-suc_left : (n j : ℕ) → n + suc j ≡ n + 1 + j
add-suc_left n j = omega arith

-- The reads of `BulkSizeLF` and of `Bulk` do what the bytes do one by one.
loop_bulk :
    (build : Build) (f : ℕ) (p : Parser) (n m c : ℕ) (rest : Bytes)
    → p.bulk_size ≡ pos (suc m)
    → ((s' : Statement) (q : Parser) (k : ℕ) → LoopGoal build f s' q (n + 1 + k) (drop k rest))
    → LoopGoal build (suc f) bulk p n (c ∷ rest)
unfolding conclude loop
loop_bulk build f p n m c rest e ih =
    let j = min (length rest) m in
    ap (conclude _ n) (
      ap (λ r. r >>= after build)
        (step-bulk build p m c rest e ∙ ap ok (read_bulk_lem p m c rest j (omega arith)))
      ∙ after-bulk_next build (m - j) _ j)
    ∙ ih (bulk_next (m - j)) (in_bulk p (m - j) (c ∷ take j rest)) j
    ∙ sym (
        rw (suc-sub-suc m j, add-suc_left n j) at
          (run_payload build p n (suc m) (suc j) (c ∷ rest) (omega arith) (omega arith)
            (omega arith) e))

-- The parser behind the line with a payload's size.
abbrev sized_parser : Parser → ℕ → Parser
sized_parser p n = record p { bulk_size = pos n; buf = [] }

read_available_lem :
    (p : Parser) (m c : ℕ) (rest : Bytes) (k : ℕ)
    → min (suc m) (length (c ∷ rest)) ≡ suc k
    → read_available (sized_parser p (suc m)) (suc m) (c ∷ rest)
      ≡ goto
          (bulk_next (m - k))
          (in_bulk (sized_parser p (suc m)) (m - k) (c ∷ take k rest))
          (suc k)
unfolding read_available
read_available_lem p m c rest k e = rw (e, suc-sub-suc m k) (ground arith)

pub read_available-nil :
    (p : Parser) (m : ℕ)
    → read_available (sized_parser p (suc m)) (suc m) [] ≡ goto bulk (sized_parser p (suc m)) 0
unfolding read_available
read_available-nil p m = ground arith

-- Only a payload's size makes the round depend on the bytes behind `c`.
abbrev SizeCases : Build → Parser → ℕ → Type 0
SizeCases build p c =
    ((rest : Bytes) → step build bulk_size_lf p c rest ≡ step build bulk_size_lf p c [])
    ⊎ ((m : ℕ) × ((rest : Bytes)
          → step build bulk_size_lf p c rest
            ≡ ok (read_available (sized_parser p (suc m)) (suc m) rest)))

SizeCases-of :
    (build : Build) (p : Parser) (c : ℕ) (r : Result ℤ)
    → buffer_to_long build p.buf ≡ r
    → (c == b'\n') ≡ true
    → SizeCases build p c
unfolding step
SizeCases-of build p c (fault x) e h = inl (λ rest. rw (h, e))
SizeCases-of build p c (ok (negsuc zero)) e h = inl (λ rest. rw (h, e))
SizeCases-of build p c (ok (negsuc (suc m))) e h = inl (λ rest. rw (h, e))
SizeCases-of build p c (ok (pos zero)) e h = inl (λ rest. rw (h, e))
SizeCases-of build p c (ok (pos (suc m))) e h = inr (m, λ rest. rw (h, e))

size_cases : (build : Build) (p : Parser) (c : ℕ) → SizeCases build p c
unfolding step
size_cases build p c = elim (Bool-cases (c == b'\n')) [
  | inl h ↦ SizeCases-of build p c (buffer_to_long build p.buf) refl h
  | inr h ↦ inl (λ rest. rw h)
]

run_size :
    (build : Build) (p : Parser) (n m c : ℕ) (rest : Bytes)
    → ((xs : Bytes)
        → step build bulk_size_lf p c xs ≡ ok (read_available (sized_parser p (suc m)) (suc m) xs))
    → run build bulk_size_lf p n (c ∷ rest) ≡ run build bulk (sized_parser p (suc m)) (n + 1) rest
unfolding run after
run_size build p n m c rest e = rw (e []) (rw (read_available-nil p m))

loop_at_bulk :
    (build : Build) (f : ℕ) (p : Parser) (z : ℤ) (n c : ℕ) (rest : Bytes)
    → p.bulk_size ≡ z
    → ((s' : Statement) (q : Parser) (k : ℕ) → LoopGoal build f s' q (n + 1 + k) (drop k rest))
    → LoopGoal build (suc f) bulk p n (c ∷ rest)
loop_at_bulk build f p (pos (suc m)) n c rest e ih = loop_bulk build f p n m c rest e ih
loop_at_bulk build f p (pos zero) n c rest e ih =
    loop_single build f bulk p n c rest (unfold step in rw (e, step))
      (λ s' q. rw (add-zero (n + 1)) at (ih s' q 0))
loop_at_bulk build f p (negsuc m) n c rest e ih =
    loop_single build f bulk p n c rest (unfold step in rw (e, step))
      (λ s' q. rw (add-zero (n + 1)) at (ih s' q 0))

loop_size :
    (build : Build) (f : ℕ) (p : Parser) (n m c : ℕ) (rest : Bytes)
    → ((xs : Bytes)
        → step build bulk_size_lf p c xs ≡ ok (read_available (sized_parser p (suc m)) (suc m) xs))
    → ((s' : Statement) (q : Parser) (k : ℕ) → LoopGoal build f s' q (n + 1 + k) (drop k rest))
    → LoopGoal build (suc f) bulk_size_lf p n (c ∷ rest)
loop_size build f p n m c [] e ih =
    loop_single build f bulk_size_lf p n c [] refl (λ s' q. rw (add-zero (n + 1)) at (ih s' q 0))
loop_size build f p n m c (d ∷ rest) e ih =
    let k = min m (length rest) in
    unfold loop conclude in
    (ap (conclude _ n) (
        ap (λ r. r >>= after build)
          (e (d ∷ rest) ∙ ap ok (read_available_lem p m d rest k (omega arith)))
        ∙ after-bulk_next build (m - k) _ (suc k))
      ∙ ih (bulk_next (m - k)) (in_bulk (sized_parser p (suc m)) (m - k) (d ∷ take k rest)) (suc k)
      ∙ sym (
          run_size build p n m c (d ∷ rest) e
          ∙ rw (suc-sub-suc m k) at (
              run_payload build (sized_parser p (suc m)) (n + 1) (suc m) (suc k) (d ∷ rest)
                (omega arith) (omega arith) (omega arith) refl)))

loop_cases :
    (build : Build) (f : ℕ) (s : Statement) (p : Parser) (n c : ℕ) (rest : Bytes)
    → ((s' : Statement) (q : Parser) (k : ℕ) → LoopGoal build f s' q (n + 1 + k) (drop k rest))
    → LoopGoal build (suc f) s p n (c ∷ rest)
loop_cases build f bulk_size_lf p n c rest ih = elim (size_cases build p c) [
  | inl e ↦
      loop_single build f bulk_size_lf p n c rest (e rest)
        (λ s' q. rw (add-zero (n + 1)) at (ih s' q 0))
  | inr (m, e) ↦ loop_size build f p n m c rest e ih
]
loop_cases build f bulk p n c rest ih = loop_at_bulk build f p p.bulk_size n c rest refl ih
loop_cases build f s p n c rest ih =
    loop_single build f s p n c rest (unfold step in refl)
      (λ s' q. rw (add-zero (n + 1)) at (ih s' q 0))

-- With as much fuel as there are bytes, the loop of `parseChunk` is the parser byte by byte.
pub loop-run :
    (build : Build) (f : ℕ) (s : Statement) (p : Parser) (n : ℕ) (rest : Bytes)
    → length rest ≤ f
    → loop build f s p n rest ≡ run build s p n rest
loop-run build zero s p n [] h = unfold loop run in refl
loop-run build zero s p n (c ∷ rest) h = absurd (omega arith)
loop-run build (suc f) s p n [] h = unfold loop run in refl
loop-run build (suc f) s p n (c ∷ rest) h =
    loop_cases build f s p n c rest (λ s' q k.
      loop-run build f s' q (n + 1 + k) (drop k rest) (omega (arith, length-drop k rest)))

-- For every state of the parser and every chunk, `parse` does what the parser does that is given the
-- chunk byte by byte, which reads no payload in one piece and has no fuel.
pub parse-run :
    (build : Build) (p : Parser) (input : Bytes)
    → parse build p input
      ≡ run build (resumed p.states) (record p { states = rest_states p.states }) 0 input
unfolding parse
parse-run build p input = loop-run build (length input) _ _ 0 input (omega arith)
