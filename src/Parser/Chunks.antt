-- ===== src/Parser/Chunks.antt =====
-- `parse` over a stream that arrives in pieces.
use native.Mathlib.Nat.{add-zero}
use redisclient_libary.Common.{
  Bytes, [], ◌∷◌, ◌++◌, ℕ, ◌+◌, Build, Bool-cases, inl, inr, bind-eq-ok, ◌&&◌, Result, ok, fault,
  ◌>>=◌, ◌≡◌, refl, ap, ◌∙◌, sym, arith,
}
use redisclient_libary.Parser.Step.{Statement, Parser, Move, goto, reject, step, is_start}
use redisclient_libary.Parser.Bytewise.{run}
use redisclient_libary.Parser.Reference.{parse-run}
use redisclient_libary.Parser.{
  ParseResult, completed, uncompleted, error, Parsed, Round, go_on, break_out, give_up, after,
  leave, is_empty, conclude, parse, resumed, rest_states,
}

-- The same result, `d` bytes further on.
abbrev pub advance : ℕ → Result Parsed → Result Parsed
advance d (fault e) = fault e
advance d (ok r) = ok (record r { consumed = d + r.consumed })

leave-advance :
    (s : Statement) (p : Parser) (d n : ℕ) → ok (leave s p (d + n)) ≡ advance d (ok (leave s p n))
unfolding leave
leave-advance s p d n = elim (Bool-cases (is_empty p.array_sizes && is_start s)) [
  | inl e ↦ rw e
  | inr e ↦ rw e
]

conclude-advance :
    (again other : Statement → Parser → ℕ → Result Parsed) (d n : ℕ) (r : Result Round)
    → ((s : Statement) (q : Parser) (k : ℕ) → again s q k ≡ advance d (other s q k))
    → conclude again (d + n) r ≡ advance d (conclude other n r)
unfolding conclude
conclude-advance again other d n (fault x) h = refl
conclude-advance again other d n (ok (go_on s q k)) h = h s q k
conclude-advance again other d n (ok (break_out s q k)) h =
    ap (λ i. ok (leave s q i)) (omega arith) ∙ leave-advance s q d (n + 1 + k)
conclude-advance again other d n (ok (give_up q)) h =
    ap (λ i. ok (record { consumed = i; result = error; parser = q })) (omega arith)

-- `pos` is only a count.
run-advance :
    (build : Build) (s : Statement) (p : Parser) (d n : ℕ) (b : Bytes)
    → run build s p (d + n) b ≡ advance d (run build s p n b)
unfolding run
run-advance build s p d n [] = leave-advance s p d n
run-advance build s p d n (c ∷ b) =
    conclude-advance _ _ d n (step build s p c [] >>= after build)
      λ s' q k. ap (λ i. run build s' q i b) (omega arith) ∙ run-advance build s' q d (n + 1) b

-- A round that goes on has no reply yet, and one that breaks off has.
after-go_on :
    (build : Build) (m : Move) {s' : Statement} {q : Parser} {k' : ℕ} (n : ℕ)
    → after build m ≡ ok (go_on s' q k')
    → (leave s' q n).result ≡ uncompleted
unfolding after leave
after-go_on build (reject p) n e = cc
after-go_on build (goto s p k) {s'} {q} {k'} n e = ground arith

after-break_out :
    (build : Build) (m : Move) {s' : Statement} {q : Parser} {k' : ℕ} (n : ℕ)
    → after build m ≡ ok (break_out s' q k')
    → (leave s' q n).result ≡ completed
unfolding after leave
after-break_out build (reject p) n e = cc
after-break_out build (goto s p k) {s'} {q} {k'} n e = ground arith

abbrev pub popped : Parser → Parser
popped p = record p { states = rest_states p.states }

-- Behind a chunk that left a reply unfinished the next bytes are read on from the state that was
-- saved, and any other outcome stands.
abbrev then_run : Build → Bytes → Result Parsed → Result Parsed
then_run build b (fault e) = fault e
then_run build b (ok r) = elim r.result [
  | uncompleted ↦ run build (resumed r.parser.states) (popped r.parser) r.consumed b
  | completed ↦ ok r
  | error ↦ ok r
]

then_run-uncompleted :
    (build : Build) (b : Bytes) (s : Statement) (q : Parser) (n : ℕ)
    → (leave s q n).result ≡ uncompleted
    → then_run build b (ok (leave s q n)) ≡ run build s q n b
unfolding leave
then_run-uncompleted build b s q n h = elim (Bool-cases (is_empty q.array_sizes && is_start s)) [
  | inl e ↦ cc ((rw e at h))
  | inr e ↦ rw e
]

then_run-completed :
    (build : Build) (b : Bytes) (r : Parsed) → r.result ≡ completed → then_run build b (ok r) ≡ ok r
then_run-completed build b r h = simp h

conclude-then_run :
    (build : Build) (b : Bytes) (again other : Statement → Parser → ℕ → Result Parsed) (n : ℕ)
    (r : Result Round)
    → ((s : Statement) (q : Parser) (k : ℕ)
        → r ≡ ok (go_on s q k)
        → again s q k ≡ then_run build b (other s q k))
    → ((s : Statement) (q : Parser) (k : ℕ)
        → r ≡ ok (break_out s q k)
        → (leave s q (n + 1 + k)).result ≡ completed)
    → conclude again n r ≡ then_run build b (conclude other n r)
unfolding conclude
conclude-then_run build b again other n (fault x) h stop = refl
conclude-then_run build b again other n (ok (give_up q)) h stop = refl
conclude-then_run build b again other n (ok (go_on s q k)) h stop = h s q k refl
conclude-then_run build b again other n (ok (break_out s q k)) h stop =
    sym (then_run-completed build b _ (stop s q k refl))

module _ (build : Build) (s : Statement) (p : Parser) (c : ℕ) where
  pub round_goes_on :
      {s' : Statement} {q : Parser} {k : ℕ} (n : ℕ)
      → (step build s p c [] >>= after build) ≡ ok (go_on s' q k)
      → (leave s' q n).result ≡ uncompleted
  round_goes_on n e =
      let (m, _, h) = bind-eq-ok (step build s p c []) (after build) e in after-go_on build m n h

  pub round_breaks_out :
      {s' : Statement} {q : Parser} {k : ℕ} (n : ℕ)
      → (step build s p c [] >>= after build) ≡ ok (break_out s' q k)
      → (leave s' q n).result ≡ completed
  round_breaks_out n e =
      let (m, _, h) = bind-eq-ok (step build s p c []) (after build) e in
      after-break_out build m n h

run-append :
    (build : Build) (s : Statement) (p : Parser) (n c : ℕ) (a b : Bytes)
    → run build s p n (c ∷ (a ++ b)) ≡ then_run build b (run build s p n (c ∷ a))
unfolding run
run-append build s p n c [] b =
    conclude-then_run build b _ _ n _
      (λ s' q k e.
        sym (then_run-uncompleted build b s' q (n + 1) (round_goes_on build s p c (n + 1) e)))
      (λ s' q k e. round_breaks_out build s p c (n + 1 + k) e)
run-append build s p n c (d ∷ a) b =
    conclude-then_run build b _ _ n _ (λ s' q k e. run-append build s' q (n + 1) d a b)
      (λ s' q k e. round_breaks_out build s p c (n + 1 + k) e)

-- What a chunk leaves to its successor.
abbrev pub resume : Build → Bytes → Result Parsed → Result Parsed
resume build b (fault e) = fault e
resume build b (ok r) = elim r.result [
  | uncompleted ↦ advance r.consumed (parse build r.parser b)
  | completed ↦ ok r
  | error ↦ ok r
]

then_run-resume :
    (build : Build) (b : Bytes) (r : Result Parsed) → then_run build b r ≡ resume build b r
then_run-resume build b (fault e) = refl
then_run-resume build b (ok r) = choose r.result
  where
    resumes :
        run build (resumed r.parser.states) (popped r.parser) r.consumed b
        ≡ advance r.consumed (parse build r.parser b)
    resumes =
        ap (λ i. run build (resumed r.parser.states) (popped r.parser) i b)
          (sym (add-zero r.consumed))
        ∙ run-advance build (resumed r.parser.states) (popped r.parser) r.consumed 0 b
        ∙ ap (advance r.consumed) (sym (parse-run build r.parser b))

    choose :
        (v : ParseResult)
        → ◌≡◌ {A = Result Parsed}
            (elim v [
              | uncompleted ↦ run build (resumed r.parser.states) (popped r.parser) r.consumed b
              | completed ↦ ok r
              | error ↦ ok r
            ])
            (elim v [
              | uncompleted ↦ advance r.consumed (parse build r.parser b)
              | completed ↦ ok r
              | error ↦ ok r
            ])
    choose uncompleted = resumes
    choose completed = refl
    choose error = refl

-- A stream may be cut anywhere behind its first byte: `parse` of the whole gives what `parse` of the
-- first piece gives, unless that asks for more; then it gives what a second `parse`, of the other
-- piece, gives with the parser that was left, at a position that counts both.
pub parse-append :
    (build : Build) (p : Parser) (c : ℕ) (a b : Bytes)
    → parse build p ((c ∷ a) ++ b) ≡ resume build b (parse build p (c ∷ a))
parse-append build p c a b =
    parse-run build p ((c ∷ a) ++ b)
    ∙ run-append build (resumed p.states) (popped p) 0 c a b
    ∙ then_run-resume build b _
    ∙ ap (resume build b) (sym (parse-run build p (c ∷ a)))
