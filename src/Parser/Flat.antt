-- ===== src/Parser/Flat.antt =====
-- What the states of the parser have in common: it never opens an array.
use mathlib.Core.Path.{subst}
use redisclient_libary.Common.{
  true, false, [], ℕ, zero, suc, ◌==◌, Build, Bool-cases, Result, ok, ◌≡◌, inl, inr, refl, ◌∙◌, sym,
  arith,
}
use redisclient_libary.Common.Int.{ℤ, pos, negsuc}
use redisclient_libary.Value.{
  RedisValue, redis_value, null_tag, int64, bytes, array, is_array, int_value, moved_from,
}
use redisclient_libary.Parser.Number.Faults.{buffer_to_long-NumberFaults}
use redisclient_libary.Parser.Number.{buffer_to_long}
use redisclient_libary.Parser.Step.{
  Statement, Parser, Move, goto, is_start, step, start, start_array, integer_lf, bulk_size_lf, bulk,
  array_size, array_size_lf, sized, read_available, read_bulk,
}
use redisclient_libary.Parser.Complete.{complete}
use redisclient_libary.Parser.Kept.{MoveKept, CompleteKept, bind-MoveKept, Kept, IsSaved}
use redisclient_libary.Parser.{result}

-- No array is open, the last value is none, and no state is saved below the current one.
pub record IsFlat (p : Parser) : Type 0 where
  pub no_sizes : p.array_sizes ≡ []
  pub no_values : p.array_values ≡ []
  pub not_array : is_array p.redis_value ≡ false
  pub no_states : p.states ≡ []

-- The states that are ever entered; in a payload some of it is still to come.
abbrev pub Enters : Statement → ℤ → Type 0
Enters start_array _ = ⊥
Enters array_size _ = ⊥
Enters array_size_lf _ = ⊥
Enters bulk (pos (suc n)) = Unit
Enters bulk _ = ⊥
Enters _ _ = Unit

abbrev MoveFlat : Result Move → Type 0
MoveFlat = MoveKept IsFlat Enters

sized-Flat :
    (p : Parser) (i : ℤ)
    → IsFlat p
    → MoveFlat (ok (sized (record p { bulk_size = i; buf = [] }) i []))
unfolding sized read_available is_array
sized-Flat p (pos zero) f = ground arith
sized-Flat p (pos (suc n)) f = ground arith
sized-Flat p (negsuc zero) f = ground arith
sized-Flat p (negsuc (suc n)) f = ground arith

bulk_at-Flat :
    (build : Build) (p : Parser) (i : ℤ) (c : ℕ)
    → p.bulk_size ≡ i
    → IsFlat p
    → Enters bulk i
    → MoveFlat (step build bulk p c [])
unfolding step
bulk_at-Flat build p (pos zero) c e f h = elim h [ ]
bulk_at-Flat build p (negsuc n) c e f h = elim h [ ]
bulk_at-Flat build p (pos (suc n)) c e f h = rw (e, step) (unfold read_bulk in ground arith)

step-Flat :
    (build : Build) (s : Statement) (p : Parser) (c : ℕ)
    → IsFlat p
    → Enters s p.bulk_size
    → MoveFlat (step build s p c [])
unfolding step is_array
step-Flat build bulk p c f e = bulk_at-Flat build p p.bulk_size c refl f e
step-Flat build bulk_size_lf p c f e = elim (Bool-cases (c == b'\n')) [
  | inl h ↦ rw h (
      bind-MoveKept IsFlat Enters (buffer_to_long build p.buf)
        (λ i. sized (record p { bulk_size = i; buf = [] }) i [])
        (buffer_to_long-NumberFaults build p.buf) λ i. sized-Flat p i f)
  | inr h ↦ ground arith
]
step-Flat build integer_lf p c f e = elim (Bool-cases (c == b'\n')) [
  | inl h ↦ rw h (
      bind-MoveKept IsFlat Enters (buffer_to_long build p.buf)
        (λ i. goto start (record p { buf = []; redis_value = int_value i }) 0)
        (buffer_to_long-NumberFaults build p.buf) λ i. ground arith)
  | inr h ↦ ground arith
]
step-Flat build start_array p c f e = elim e [ ]
step-Flat build array_size p c f e = elim e [ ]
step-Flat build array_size_lf p c f e = elim e [ ]
step-Flat build _ p c f e = ground arith

complete-none : (build : Build) (p : Parser) → p.array_sizes ≡ [] → complete build p ≡ ok p
unfolding complete
complete-none build p h = ground arith

Enters-start : (s : Statement) (i : ℤ) → is_start s ≡ true → Enters s i
unfolding is_start
Enters-start start i h = tt
Enters-start start_array i h = cc h
Enters-start _ i h = ground arith

pub IsFlat-Kept : Kept IsFlat Enters
IsFlat-Kept = record {
  step_kept = step-Flat;
  complete_kept =
      λ build p f. subst (CompleteKept IsFlat Enters) (sym (complete-none build p f.no_sizes)) f;
  enters_start = Enters-start;
  no_states = λ p f. f.no_states;
}

is_array-moved_from : (v : RedisValue) → is_array (moved_from v) ≡ is_array v
unfolding is_array moved_from
is_array-moved_from (redis_value null_tag e) = refl
is_array-moved_from (redis_value (int64 i) e) = refl
is_array-moved_from (redis_value (bytes b) e) = refl
is_array-moved_from (redis_value (array vs) e) = refl

pub result-IsSaved : (p : Parser) → IsSaved IsFlat Enters p → IsSaved IsFlat Enters (result p).1
unfolding result
result-IsSaved p v = record {
  good = record {
    no_sizes = v.good.no_sizes;
    no_values = v.good.no_values;
    not_array = is_array-moved_from p.redis_value ∙ v.good.not_array;
    no_states = v.good.no_states;
  };
  entered = v.entered;
}
