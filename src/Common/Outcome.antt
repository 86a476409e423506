-- ===== src/Common/Outcome.antt =====
-- What ends a run of the program in the middle of an operation, and what `assert` does in a build.
use redisclient_libary.Common.Tests.{if◌then◌else◌}
use mathlib.Core.Path.{◌≡◌, refl}
use mathlib.Core.Bool.{Bool}

-- The default `CMAKE_BUILD_TYPE`, Release, defines NDEBUG, and Debug does not.
pub data Build : Type 0 where
  debug release : Build

-- `assert_failed` is an `assert` that does not hold and `bad_get` the exception of `boost::get`.
-- The next three are undefined behaviour: `signed_overflow` is a result out of the range of
-- `long int`, `empty_container` a `top`, `front` or `pop` of an empty container, and `bad_range` an
-- iterator range that does not run forwards. `out_of_fuel` stands for a loop that is cut off.
pub data Fault : Type 0 where
  assert_failed bad_get signed_overflow empty_container bad_range out_of_fuel : Fault

-- An operation returns, or the run ends in a fault.
pub data Result {ℓ} (X : Type ℓ) : Type ℓ where
  fault : Fault → Result X
  ok : X → Result X

module _ {ℓ κ} {X : Type ℓ} {Y : Type κ} where
  infixl 5 ◌>>=◌
  abbrev pub ◌>>=◌ : Result X → (X → Result Y) → Result Y
  fault e >>= next = fault e
  ok x >>= next = next x

  -- What a successful chain went through.
  pub bind-eq-ok :
      (r : Result X) (next : X → Result Y) {y : Y}
      → r >>= next ≡ ok y
      → (x : X) × (r ≡ ok x) × (next x ≡ ok y)
  bind-eq-ok (fault e) next h = cc
  bind-eq-ok (ok x) next h = (x, refl, h)

-- `assert` in a build.
abbrev pub assert : Build → Bool → Result (Unit {0})
assert release test = ok tt
assert debug test = if test then ok tt else fault assert_failed

infixl 5 ◌>>◌
abbrev pub ◌>>◌ {κ} : {Y : Type κ} → Result (Unit {0}) → Result Y → Result Y
check >> next = check >>= λ _. next
