-- ===== src/Parser/Nested.antt =====
-- What the stacks of arrays keep, from any state of the parser: the arrays that are open, each with
-- the number of items that it still wants.
use mathlib.Core.Path.{subst}
use redisclient_libary.Common.{
  List, true, [], ◌∷◌, ℕ, zero, suc, ◌==◌, Build, Bool-cases, Result, ok, fault, assert_failed,
  signed_overflow, ◌⊎◌, ◌≡◌, inl, inr, refl, ap, ◌∙◌, sym, arith,
}
use redisclient_libary.Common.Int.{ℤ, pos, negsuc}
use redisclient_libary.Value.{RedisValue, nil, int_value, array_value}
use redisclient_libary.Parser.Number.Faults.{buffer_to_long-NumberFaults}
use redisclient_libary.Parser.Number.{buffer_to_long}
use redisclient_libary.Parser.Step.{
  Statement, Parser, Move, goto, is_start, step, start, start_array, integer_lf, bulk_size_lf, bulk,
  array_size_lf, sized, read_available, read_bulk, array_sized,
}
use redisclient_libary.Parser.Complete.{complete}
use redisclient_libary.Parser.Frames.{Frame, sizes, values, plug, complete-plug}
use redisclient_libary.Parser.Kept.{MoveKept, CompleteKept, bind-MoveKept, Kept, IsSaved}
use redisclient_libary.Parser.Calls.{Call, perform, number_fault, PerformKept, perform-Kept}
use redisclient_libary.Parser.{result}

-- The two stacks are those of some open arrays.
pub record Nests (ns : List ℤ) (vs : List RedisValue) : Type 0 where
  pub frames : List Frame
  pub sizes_of : ns ≡ sizes frames
  pub values_of : vs ≡ values frames

-- And no state is saved below the current one.
pub record IsNested (p : Parser) : Type 0 where
  pub nests : Nests p.array_sizes p.array_values
  pub no_states : p.states ≡ []

-- In a payload some of it is still to come.
abbrev pub Enters : Statement → ℤ → Type 0
Enters bulk (pos (suc n)) = Unit
Enters bulk _ = ⊥
Enters _ _ = Unit

abbrev MoveNested : Result Move → Type 0
MoveNested = MoveKept IsNested Enters

abbrev open_array :
    {ns : List ℤ} {vs : List RedisValue} (n : ℕ)
    → Nests ns vs
    → Nests (pos (suc n) ∷ ns) (array_value nil ∷ vs)
open_array n f = record {
  frames = record { items = nil; later = n } ∷ f.frames;
  sizes_of = ap (λ l. pos (suc n) ∷ l) f.sizes_of;
  values_of = ap (λ l. array_value nil ∷ l) f.values_of;
}

sized-Nested :
    (p : Parser) (i : ℤ)
    → IsNested p
    → MoveNested (ok (sized (record p { bulk_size = i; buf = [] }) i []))
unfolding sized read_available
sized-Nested p (pos zero) f = ground arith
sized-Nested p (pos (suc n)) f = ground arith
sized-Nested p (negsuc zero) f = ground arith
sized-Nested p (negsuc (suc n)) f = ground arith

array_sized-Nested : (p : Parser) (i : ℤ) → IsNested p → MoveNested (ok (array_sized p i))
unfolding array_sized
array_sized-Nested p (pos zero) f = ground arith
array_sized-Nested p (pos (suc n)) f =
    (record { nests = open_array n f.nests; no_states = f.no_states }, tt)
array_sized-Nested p (negsuc zero) f = ground arith
array_sized-Nested p (negsuc (suc n)) f = ground arith

bulk_at-Nested :
    (build : Build) (p : Parser) (i : ℤ) (c : ℕ)
    → p.bulk_size ≡ i
    → IsNested p
    → Enters bulk i
    → MoveNested (step build bulk p c [])
unfolding step
bulk_at-Nested build p (pos zero) c e f h = elim h [ ]
bulk_at-Nested build p (negsuc n) c e f h = elim h [ ]
bulk_at-Nested build p (pos (suc n)) c e f h = rw (e, step) (unfold read_bulk in ground arith)

step-Nested :
    (build : Build) (s : Statement) (p : Parser) (c : ℕ)
    → IsNested p
    → Enters s p.bulk_size
    → MoveNested (step build s p c [])
unfolding step
step-Nested build bulk p c f e = bulk_at-Nested build p p.bulk_size c refl f e
step-Nested build bulk_size_lf p c f e = elim (Bool-cases (c == b'\n')) [
  | inl h ↦ rw h (
      bind-MoveKept IsNested Enters (buffer_to_long build p.buf)
        (λ i. sized (record p { bulk_size = i; buf = [] }) i [])
        (buffer_to_long-NumberFaults build p.buf) λ i. sized-Nested p i f)
  | inr h ↦ ground arith
]
step-Nested build array_size_lf p c f e = elim (Bool-cases (c == b'\n')) [
  | inl h ↦ rw h (
      bind-MoveKept IsNested Enters (buffer_to_long build p.buf) (array_sized p)
        (buffer_to_long-NumberFaults build p.buf) λ i. array_sized-Nested p i f)
  | inr h ↦ ground arith
]
step-Nested build integer_lf p c f e = elim (Bool-cases (c == b'\n')) [
  | inl h ↦ rw h (
      bind-MoveKept IsNested Enters (buffer_to_long build p.buf)
        (λ i. goto start (record p { buf = []; redis_value = int_value i }) 0)
        (buffer_to_long-NumberFaults build p.buf) λ i. ground arith)
  | inr h ↦ ground arith
]
step-Nested build _ p c f e = ground arith

complete-frames :
    (build : Build) (p : Parser) (fs : List Frame)
    → p.states ≡ []
    → p.array_sizes ≡ sizes fs
    → p.array_values ≡ values fs
    → CompleteKept IsNested Enters (complete build p)
complete-frames build p fs h a b =
    let same =
      ap (λ l. record p { array_sizes = l }) a
      ∙ ap (λ l. record p { array_sizes = sizes fs; array_values = l }) b in
    subst (λ q. CompleteKept IsNested Enters (complete build q)) (sym same)
      (rw (complete-plug build p fs) record {
        nests = record { frames = (plug p.redis_value fs).1; sizes_of = refl; values_of = refl };
        no_states = h;
      })

complete-Nested :
    (build : Build) (p : Parser) → IsNested p → CompleteKept IsNested Enters (complete build p)
complete-Nested build p f =
    complete-frames build p f.nests.frames f.no_states f.nests.sizes_of f.nests.values_of

Enters-start : (s : Statement) (i : ℤ) → is_start s ≡ true → Enters s i
unfolding is_start
Enters-start start i h = tt
Enters-start start_array i h = tt
Enters-start _ i h = ground arith

pub IsNested-Kept : Kept IsNested Enters
IsNested-Kept = record {
  step_kept = step-Nested;
  complete_kept = complete-Nested;
  enters_start = Enters-start;
  no_states = λ p f. f.no_states;
}

result-IsSaved : (p : Parser) → IsSaved IsNested Enters p → IsSaved IsNested Enters (result p).1
unfolding result
result-IsSaved p v = record {
  good = record { nests = v.good.nests; no_states = v.good.no_states };
  entered = v.entered;
}

-- The stacks belong to open arrays, and a call that does not return failed in `bufferToLong`, at the
-- assertion or by an overflow.
abbrev pub StaysNested : Result Parser → Type 0
StaysNested (ok p) = Nests p.array_sizes p.array_values
StaysNested (fault e) = (e ≡ assert_failed) ⊎ (e ≡ signed_overflow)

PerformKept-StaysNested : (r : Result Parser) → PerformKept IsNested Enters r → StaysNested r
PerformKept-StaysNested (ok p) v = v.good.nests
PerformKept-StaysNested (fault e) h = number_fault e h

-- From any saved state, the states for arrays included, and any arrays that are open: whatever bytes
-- the parser is given, in any pieces and with any calls of `result` between them, the stacks of
-- sizes and of arrays stay those of open arrays, each an array of values with a positive number of
-- items to come. A call that does not return failed in `bufferToLong`; no top is taken of an empty
-- stack, and no value is taken for an array that is none.
pub perform-StaysNested :
    (build : Build) (p : Parser) (calls : List Call)
    → IsSaved IsNested Enters p
    → StaysNested (perform build p calls)
perform-StaysNested build p calls v =
    PerformKept-StaysNested (perform build p calls)
      (perform-Kept IsNested Enters build p calls IsNested-Kept result-IsSaved v)
