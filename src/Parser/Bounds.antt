-- ===== src/Parser/Bounds.antt =====
-- How much of a chunk `parse` reads.
use native.Mathlib.Nat.{add-zero}
use mathlib.Core.Path.{subst}
use redisclient_libary.Common.{
  Bytes, [], ◌∷◌, ℕ, suc, ◌+◌, ◌≤◌, ◌<◌, length, Build, Bool-cases, inl, inr, ◌&&◌, Result, ok,
  fault, ◌>>=◌, ◌≡◌, refl, ◌∙◌, sym, arith,
}
use redisclient_libary.Parser.Step.{Statement, Parser, step, is_start}
use redisclient_libary.Parser.Bytewise.{run, SingleRound, bind-Single, step-Single}
use redisclient_libary.Parser.Reference.{parse-run}
use redisclient_libary.Parser.Chunks.{round_breaks_out}
use redisclient_libary.Parser.{
  completed, uncompleted, Parsed, Round, go_on, break_out, give_up, after, leave, is_empty,
  conclude, parse, resumed, rest_states,
}

-- A result's `consumed` lies in a range, and is its upper end if the reply is unfinished.
abbrev pub InBounds : ℕ → ℕ → Result Parsed → Type 0
InBounds lo hi (fault e) = Unit
InBounds lo hi (ok r) =
    (lo ≤ r.consumed) × (r.consumed ≤ hi) × (r.result ≡ uncompleted → r.consumed ≡ hi)

leave-InBounds : (s : Statement) (q : Parser) (n : ℕ) → InBounds n n (ok (leave s q n))
unfolding leave
leave-InBounds s q n = elim (Bool-cases (is_empty q.array_sizes && is_start s)) [
  | inl e ↦ rw e (omega arith, omega arith, λ _. refl)
  | inr e ↦ rw e (omega arith, omega arith, λ _. refl)
]

conclude-InBounds :
    (again : Statement → Parser → ℕ → Result Parsed) (n hi : ℕ) (r : Result Round)
    → n < hi
    → SingleRound r
    → ((s : Statement) (q : Parser) (k : ℕ) → InBounds (n + 1) hi (again s q k))
    → ((s : Statement) (q : Parser) (k : ℕ)
        → r ≡ ok (break_out s q k)
        → (leave s q (n + 1 + k)).result ≡ completed)
    → InBounds (n + 1) hi (conclude again n r)
unfolding conclude
conclude-InBounds again n hi (fault x) l one h stop = tt
conclude-InBounds again n hi (ok (go_on s q k)) l one h stop = h s q k
conclude-InBounds again n hi (ok (break_out s q k)) l one h stop =
    let (low, high, _) = leave-InBounds s q (n + 1 + k) in
    (omega arith, omega arith, λ u. cc (stop s q k refl, u))
conclude-InBounds again n hi (ok (give_up q)) l one h stop = (omega arith, omega arith, λ u. cc u)

InBounds-mono :
    (lo lo' hi : ℕ) (r : Result Parsed) → lo ≤ lo' → InBounds lo' hi r → InBounds lo hi r
InBounds-mono lo lo' hi (fault e) l h = tt
InBounds-mono lo lo' hi (ok r) l (a, b, c) = (omega arith, b, c)

assoc_one : (n m : ℕ) → n + suc m ≡ n + 1 + m
assoc_one n m = omega arith

suc_one : (m : ℕ) → suc m ≡ 1 + m
suc_one m = omega arith

conclude-step :
    (build : Build) (s : Statement) (p : Parser) (c n hi : ℕ)
    (again : Statement → Parser → ℕ → Result Parsed)
    → n < hi
    → ((s' : Statement) (q : Parser) (k : ℕ) → InBounds (n + 1) hi (again s' q k))
    → InBounds (n + 1) hi (conclude again n (step build s p c [] >>= after build))
conclude-step build s p c n hi again l h =
    conclude-InBounds again n hi (step build s p c [] >>= after build) l
      (bind-Single build (step build s p c []) (step-Single build s p c)) h
      (λ s' q k e. round_breaks_out build s p c (n + 1 + k) e)

run-InBounds :
    (build : Build) (a : Bytes) (s : Statement) (p : Parser) (n : ℕ)
    → InBounds n (n + length a) (run build s p n a)
unfolding run
run-InBounds build [] s p n = rw (add-zero n) (leave-InBounds s p n)
run-InBounds build (c ∷ a) s p n = InBounds-mono n (n + 1) _ _ (omega arith) (
    conclude-step build s p c n (n + suc (length a)) _ (omega arith)
      λ s' q k. rw (assoc_one n (length a)) (run-InBounds build a s' q (n + 1)))

run-InBounds_cons :
    (build : Build) (c : ℕ) (a : Bytes) (s : Statement) (p : Parser)
    → InBounds 1 (suc (length a)) (run build s p 0 (c ∷ a))
unfolding run
run-InBounds_cons build c a s p =
    conclude-step build s p c 0 (suc (length a)) _ (omega arith)
      λ s' q k. rw (suc_one (length a)) (run-InBounds build a s' q 1)

-- A call of `parse` on bytes reads one of them at least and no byte behind them, and all of them if
-- it asks for more. So the clients' loops over a buffer advance, and stay in it.
pub parse_bounds :
    (build : Build) (p : Parser) (c : ℕ) (a : Bytes) (r : Parsed)
    → parse build p (c ∷ a) ≡ ok r
    → (0 < r.consumed)
      × (r.consumed ≤ length (c ∷ a))
      × (r.result ≡ uncompleted → r.consumed ≡ length (c ∷ a))
parse_bounds build p c a r e =
    subst (InBounds 1 (suc (length a))) (sym (parse-run build p (c ∷ a)) ∙ e)
      (run-InBounds_cons build c a (resumed p.states) (record p { states = rest_states p.states }))
