-- ===== src/Parser/Number/Faults.antt =====
-- The faults of `bufferToLong`.
use redisclient_libary.Common.{
  Bytes, Bool, true, false, [], ◌∷◌, ◌==◌, Build, Bool-cases, debug, release, assert, Fault,
  assert_failed, signed_overflow, Result, ok, fault, ◌>>=◌, ◌>>◌, ◌≡◌, inl, inr, arith,
}
use redisclient_libary.Common.Int.{ℤ, pos}
use redisclient_libary.Parser.Number.{
  accumulate, buffer_to_long, checked, times_ten, add_digit, negated,
}

abbrev pub IsNumberFault : Fault → Type 0
IsNumberFault assert_failed = Unit
IsNumberFault signed_overflow = Unit
IsNumberFault _ = ⊥

pub record NumberFaults (r : Result ℤ) : Type 0 where
  pub of : (e : Fault) → r ≡ fault e → IsNumberFault e

checked-NumberFaults : (i : ℤ) → NumberFaults (checked i)
checked-NumberFaults i = record { of = λ e h. ground arith }

bind-NumberFaults :
    (r : Result ℤ) (f : ℤ → Result ℤ)
    → NumberFaults r
    → ((i : ℤ) → NumberFaults (f i))
    → NumberFaults (r >>= f)
bind-NumberFaults (ok i) f h g = g i
bind-NumberFaults (fault e) f h g = h

assert-NumberFaults :
    (build : Build) (b : Bool) (r : Result ℤ) → NumberFaults r → NumberFaults (assert build b >> r)
assert-NumberFaults debug true r h = h
assert-NumberFaults debug false r h = record { of = λ e x. ground arith }
assert-NumberFaults release b r h = h

ok-NumberFaults : (i : ℤ) → NumberFaults (ok i)
ok-NumberFaults i = record { of = λ e h. cc }

accumulate-NumberFaults :
    (build : Build) (v : ℤ) (cs : Bytes) → NumberFaults (accumulate build v cs)
unfolding accumulate
accumulate-NumberFaults build v [] = ok-NumberFaults v
accumulate-NumberFaults build v (c ∷ cs) = assert-NumberFaults build _ _ (
    bind-NumberFaults _ _ (checked-NumberFaults (times_ten v)) λ scaled.
      bind-NumberFaults _ _ (checked-NumberFaults (add_digit scaled c))
        λ sum. accumulate-NumberFaults build sum cs)

pub buffer_to_long-NumberFaults :
    (build : Build) (cs : Bytes) → NumberFaults (buffer_to_long build cs)
unfolding buffer_to_long
buffer_to_long-NumberFaults build [] = ok-NumberFaults (pos 0)
buffer_to_long-NumberFaults build (c ∷ cs) = elim (Bool-cases (c == b'-')) [
  | inl e ↦ rw e (
      bind-NumberFaults _ _ (accumulate-NumberFaults build (pos 0) cs)
        λ v. checked-NumberFaults (negated v))
  | inr e ↦ rw e (accumulate-NumberFaults build (pos 0) (c ∷ cs))
]
