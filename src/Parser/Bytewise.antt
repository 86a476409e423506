-- ===== src/Parser/Bytewise.antt =====
-- The parser that is given one byte at a time.
use redisclient_libary.Common.{
  Bytes, [], ◌∷◌, ◌++◌, ℕ, zero, suc, ◌+◌, ◌<◌, ◌==◌, length, if◌then◌else◌, Build, Result, ok,
  fault, ◌>>=◌, ◌≡◌, refl, ap, ◌∙◌, arith, append_assoc,
}
use redisclient_libary.Common.Int.{pos}
use redisclient_libary.Parser.Step.{
  Statement, Parser, Move, goto, reject, step, bulk, bulk_cr, read_bulk, start_array,
}
use redisclient_libary.Parser.{Parsed, Round, go_on, break_out, give_up, after, leave, conclude}

-- Every byte is a chunk of its own: no case ever reads beyond `c`.
unfoldable pub run : Build → Statement → Parser → ℕ → Bytes → Result Parsed
unfolding conclude
run build s p n [] = ok (leave s p n)
run build s p n (c ∷ rest) =
    conclude (λ s' q k. run build s' q (n + 1) rest) n (step build s p c [] >>= after build)

-- The parser in the middle of a payload that has `m` bytes to come.
abbrev pub in_bulk : Parser → ℕ → Bytes → Parser
in_bulk p m xs = record p { buf = p.buf ++ xs; bulk_size = pos m }

pub step-bulk :
    (build : Build) (p : Parser) (m c : ℕ) (rest : Bytes)
    → p.bulk_size ≡ pos (suc m)
    → step build bulk p c rest ≡ ok (read_bulk p (suc m) c rest)
unfolding step
step-bulk build p m c rest h = rw (h, step)

abbrev pub bulk_next : ℕ → Statement
bulk_next m = if m == 0 then bulk_cr else bulk

-- One byte of a payload.
pub run_bulk_byte :
    (build : Build) (p : Parser) (n m : ℕ) (c : ℕ) (rest : Bytes)
    → p.bulk_size ≡ pos (suc m)
    → run build bulk p n (c ∷ rest) ≡ run build (bulk_next m) (in_bulk p m (c ∷ [])) (n + 1) rest
unfolding run step after
run_bulk_byte build p n zero c rest h = ground arith
run_bulk_byte build p n (suc m) c rest h = ground arith

pub bulk_next-suc : (m : ℕ) → bulk_next (suc m) ≡ bulk
bulk_next-suc m = ground arith

pub in_bulk-in_bulk :
    (p : Parser) (k m c : ℕ) (xs : Bytes)
    → in_bulk (in_bulk p k (c ∷ [])) m xs ≡ in_bulk p m (c ∷ xs)
in_bulk-in_bulk p k m c xs =
    ap (λ b. record p { buf = b; bulk_size = pos m }) (append_assoc p.buf (c ∷ []) xs)

-- A stretch of a payload, byte by byte, is appended as a whole.
pub run_bulk :
    (build : Build) (xs : Bytes) (p : Parser) (n m : ℕ) (ys : Bytes)
    → 0 < length xs
    → p.bulk_size ≡ pos (length xs + m)
    → run build bulk p n (xs ++ ys) ≡ run build (bulk_next m) (in_bulk p m xs) (n + length xs) ys
run_bulk build [] p n m ys h e = absurd (omega arith)
run_bulk build (c ∷ []) p n m ys h e = run_bulk_byte build p n m c ys (e ∙ ap pos (omega arith))
run_bulk build (c ∷ d ∷ xs) p n m ys h e =
    run_bulk_byte build p n (suc (length xs + m)) c (d ∷ (xs ++ ys)) (e ∙ ap pos (omega arith))
    ∙ ap (λ s. run build s (in_bulk p (suc (length xs + m)) (c ∷ [])) (n + 1) (d ∷ (xs ++ ys)))
        (bulk_next-suc (length xs + m))
    ∙ run_bulk build (d ∷ xs) (in_bulk p (suc (length xs + m)) (c ∷ [])) (n + 1) m ys (omega arith)
        (ap pos (omega arith))
    ∙ ap (λ q. run build (bulk_next m) q (n + 1 + suc (length xs)) ys)
        (in_bulk-in_bulk p (suc (length xs + m)) m c (d ∷ xs))
    ∙ ap (λ k. run build (bulk_next m) (in_bulk p m (c ∷ d ∷ xs)) k ys) (omega arith)

-- The round reads nothing beyond `c`.
abbrev pub Single : Move → Type 0
Single (goto s p k) = k ≡ 0
Single (reject p) = Unit

abbrev SingleResult : Result Move → Type 0
SingleResult (ok m) = Single m
SingleResult (fault e) = Unit

pub step-Single :
    (build : Build) (s : Statement) (p : Parser) (c : ℕ) → SingleResult (step build s p c [])
unfolding step
step-Single build start_array p c = ground arith
step-Single build _ p c = ground arith

abbrev pub SingleRound : Result Round → Type 0
SingleRound (ok (go_on s p k)) = k ≡ 0
SingleRound (ok (break_out s p k)) = k ≡ 0
SingleRound _ = Unit

pub after-Single : (build : Build) (m : Move) → Single m → SingleRound (after build m)
unfolding after
after-Single build (reject p) h = tt
after-Single build (goto s p k) h = ground arith

pub bind-Single :
    (build : Build) (m : Result Move) → SingleResult m → SingleRound (m >>= after build)
bind-Single build (ok m) h = after-Single build m h
bind-Single build (fault e) h = tt

pub conclude-Single :
    (again other : Statement → Parser → ℕ → Result Parsed) (n : ℕ) (r : Result Round)
    → SingleRound r
    → ((s : Statement) (q : Parser) → again s q 0 ≡ other s q 0)
    → conclude again n r ≡ conclude other n r
unfolding conclude
conclude-Single again other n (ok (go_on s q k)) h e = rw h (e s q)
conclude-Single again other n (ok (break_out s q k)) h e = refl
conclude-Single again other n (ok (give_up q)) h e = refl
conclude-Single again other n (fault _) h e = refl
