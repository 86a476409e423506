-- ===== src/Parser/Kept.antt =====
-- What the loop of `parseChunk` keeps: a property of the parser, and one of the state it is in.
use mathlib.Core.Path.{subst}
use redisclient_libary.Common.{
  Bytes, true, if◌then◌else◌, [], ◌∷◌, ℕ, ◌+◌, ◌&&◌, Build, Bool-cases, Result, ok, fault, ◌>>=◌,
  ◌≡◌, inl, inr, refl, ap, ◌∙◌, sym,
}
use redisclient_libary.Common.Int.{ℤ}
use redisclient_libary.Parser.Number.Faults.{IsNumberFault, NumberFaults}
use redisclient_libary.Parser.Step.{Statement, Parser, Move, goto, reject, is_start, step, start}
use redisclient_libary.Parser.Complete.{complete}
use redisclient_libary.Parser.Bytewise.{run}
use redisclient_libary.Parser.Reference.{parse-run}
use redisclient_libary.Parser.{
  Parsed, Round, go_on, break_out, give_up, after, leave, conclude, parse, resumed, rest_states,
  is_empty,
}

module _ (Good : Parser → Type 0) (Enters : Statement → ℤ → Type 0) where
  abbrev pub MoveKept : Result Move → Type 0
  MoveKept (fault e) = IsNumberFault e
  MoveKept (ok (goto s p k)) = Good p × Enters s p.bulk_size
  MoveKept (ok (reject p)) = Good p

  abbrev pub CompleteKept : Result Parser → Type 0
  CompleteKept (fault e) = IsNumberFault e
  CompleteKept (ok p) = Good p

  -- What a step and a completed value have to keep.
  pub record Kept : Type 0 where
    pub step_kept :
        (build : Build) (s : Statement) (p : Parser) (c : ℕ)
        → Good p
        → Enters s p.bulk_size
        → MoveKept (step build s p c [])
    pub complete_kept : (build : Build) (p : Parser) → Good p → CompleteKept (complete build p)
    pub enters_start : (s : Statement) (i : ℤ) → is_start s ≡ true → Enters s i
    pub no_states : (p : Parser) → Good p → p.states ≡ []

  -- The parser between two calls, with the state that is saved.
  pub record IsSaved (p : Parser) : Type 0 where
    pub good : Good (record p { states = rest_states p.states })
    pub entered : Enters (resumed p.states) p.bulk_size

  abbrev pub ParsedKept : Result Parsed → Type 0
  ParsedKept (fault e) = IsNumberFault e
  ParsedKept (ok r) = IsSaved r.parser

  abbrev RoundKept : Result Round → Type 0
  RoundKept (fault e) = IsNumberFault e
  RoundKept (ok (go_on s p k)) = Good p × Enters s p.bulk_size
  RoundKept (ok (break_out s p k)) = Good p × Enters s p.bulk_size
  RoundKept (ok (give_up p)) = Good p

  -- A result of `bufferToLong` that a step goes on with.
  pub bind-MoveKept :
      (r : Result ℤ) (f : ℤ → Move)
      → NumberFaults r
      → ((i : ℤ) → MoveKept (ok (f i)))
      → MoveKept (r >>= λ i. ok (f i))
  bind-MoveKept (ok i) f h g = g i
  bind-MoveKept (fault e) f h g = h.of e refl

  module _ (k : Kept) where
    pub Good-IsSaved : (p : Parser) → Good p → IsSaved p
    unfolding is_start
    Good-IsSaved p g =
        let none = k.no_states p g in
        record {
          good =
              subst Good (sym (ap (λ l. record p { states = l }) (ap rest_states none ∙ sym none)))
                g;
          entered =
              subst (λ l. Enters (resumed l) p.bulk_size) (sym none)
                (k.enters_start start p.bulk_size refl);
        }

    completed-Kept :
        (build : Build) (r : Result Parser) (s : Statement) (n : ℕ)
        → is_start s ≡ true
        → CompleteKept r
        → RoundKept
            (r >>= λ q. ok (if is_empty q.array_sizes then break_out s q n else go_on s q n))
    completed-Kept build (fault e) s n h g = g
    completed-Kept build (ok q) s n h g = elim (Bool-cases (is_empty q.array_sizes)) [
      | inl e ↦ rw e (g, k.enters_start s q.bulk_size h)
      | inr e ↦ rw e (g, k.enters_start s q.bulk_size h)
    ]

    after-Kept : (build : Build) (m : Move) → MoveKept (ok m) → RoundKept (after build m)
    unfolding after
    after-Kept build (reject p) g = g
    after-Kept build (goto s p n) (g, e) = elim (Bool-cases (is_start s)) [
      | inl h ↦ rw h (completed-Kept build (complete build p) s n h (k.complete_kept build p g))
      | inr h ↦ rw h (g, e)
    ]

    bind-Kept : (build : Build) (r : Result Move) → MoveKept r → RoundKept (r >>= after build)
    bind-Kept build (ok m) g = after-Kept build m g
    bind-Kept build (fault e) g = g

    leave-Kept :
        (s : Statement) (p : Parser) (n : ℕ)
        → Good p
        → Enters s p.bulk_size
        → IsSaved (leave s p n).parser
    unfolding leave
    leave-Kept s p n g e = elim (Bool-cases (is_empty p.array_sizes && is_start s)) [
      | inl h ↦ rw h (Good-IsSaved p g)
      | inr h ↦ rw h (record { good = g; entered = e })
    ]

    conclude-Kept :
        (again : Statement → Parser → ℕ → Result Parsed) (n : ℕ) (r : Result Round)
        → ((s : Statement) (q : Parser) (i : ℕ)
            → Good q
            → Enters s q.bulk_size
            → ParsedKept (again s q i))
        → RoundKept r
        → ParsedKept (conclude again n r)
    unfolding conclude
    conclude-Kept again n (fault e) h g = g
    conclude-Kept again n (ok (go_on s q i)) h (g, e) = h s q i g e
    conclude-Kept again n (ok (break_out s q i)) h (g, e) = leave-Kept s q (n + 1 + i) g e
    conclude-Kept again n (ok (give_up q)) h g = Good-IsSaved q g

    run-Kept :
        (build : Build) (a : Bytes) (s : Statement) (p : Parser) (n : ℕ)
        → Good p
        → Enters s p.bulk_size
        → ParsedKept (run build s p n a)
    unfolding run
    run-Kept build [] s p n g e = leave-Kept s p n g e
    run-Kept build (c ∷ a) s p n g e =
        conclude-Kept (λ s' q i. run build s' q (n + 1) a) n (step build s p c [] >>= after build)
          (λ s' q i. run-Kept build a s' q (n + 1))
          (bind-Kept build (step build s p c []) (k.step_kept build s p c g e))

    pub parse-Kept :
        (build : Build) (p : Parser) (a : Bytes) → IsSaved p → ParsedKept (parse build p a)
    parse-Kept build p a v =
        subst ParsedKept (sym (parse-run build p a)) (run-Kept build a _ _ 0 v.good v.entered)
