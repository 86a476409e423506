-- ===== src/Client.antt =====
-- src/redisclient/RedisClientImpl.h and ThrowError.h: what the synchronous and the asynchronous
-- client share, and how their operations run.
pub mod Ends
pub mod Sync
pub mod SyncApi
pub mod Connect
pub mod SyncOptions
pub mod Async
pub mod AsyncApi
use redisclient_libary.Common.{
  Bytes, Bool, true, false, ℕ, zero, suc, codes, Option, none, some, if◌then◌else◌, Build, debug,
  release, Fault, assert_failed, Result, ok, fault,
}
use redisclient_libary.Socket.{ErrorCode, system}

pub data State : Type 0 where
  unconnected connecting connected subscribed closed : State

-- `to_string`
unfoldable pub state_name : State → Bytes
state_name unconnected = codes "Unconnected"
state_name connecting = codes "Connecting"
state_name connected = codes "Connected"
state_name subscribed = codes "Subscribed"
state_name closed = codes "Closed"

abbrev pub is_connected_state : State → Bool
is_connected_state connected = true
is_connected_state _ = false

abbrev pub is_subscribed_state : State → Bool
is_subscribed_state subscribed = true
is_subscribed_state _ = false

-- `errorHandler`: the default throws, and the installed one is an argument.
pub data ErrorHandler : Type 0 where
  default_handler installed : ErrorHandler

-- `std::runtime_error` and `boost::system::system_error`.
pub data Exception : Type 0 where
  runtime_error : Bytes → Exception
  system_error : ErrorCode → Exception

-- An operation returns or throws in a state, is ended by a fault, or waits for the system.
pub data Ended {ℓ κ} (S : Type ℓ) (A : Type κ) : Type (ℓ ⊔ κ) where
  returned : A → S → Ended S A
  thrown : Exception → S → Ended S A
  crashed : Fault → Ended S A
  waiting : Ended S A

infixl 5 ◌>>=◌
abbrev pub ◌>>=◌ {ℓ κ ι} :
    {S : Type ℓ} {A : Type κ} {B : Type ι} → (S → Ended S A) → (A → S → Ended S B) → S → Ended S B
(run >>= next) s = elim (run s) [
  | returned x t ↦ next x t
  | thrown e t ↦ thrown e t
  | crashed f ↦ crashed f
  | waiting ↦ waiting
]

infixl 5 ◌>>◌
abbrev pub ◌>>◌ {ℓ κ ι} :
    {S : Type ℓ} {A : Type κ} {B : Type ι} → (S → Ended S A) → (S → Ended S B) → S → Ended S B
run >> next = run >>= λ _. next

module _ {ℓ κ} {S : Type ℓ} {A : Type κ} where
  abbrev pub return : A → S → Ended S A
  return x s = returned x s

  -- A computation that keeps the state.
  abbrev pub lift : Result A → S → Ended S A
  lift (ok x) s = returned x s
  lift (fault f) s = crashed f

  abbrev pub throw : Exception → S → Ended S A
  throw e s = thrown e s

-- `assert`
abbrev pub require {ℓ} : {S : Type ℓ} → Build → Bool → S → Ended S (Unit {0})
require release test s = returned tt s
require debug test s = if test then returned tt s else crashed assert_failed

-- `error_code(errno, system_category)`, which is not set if the number is 0.
abbrev pub from_errno : ℕ → Option ErrorCode
from_errno zero = none
from_errno (suc n) = some (system (suc n))

-- `throwIfError`, and `throwError` in it.
unfoldable pub throw_if_error {ℓ} : {S : Type ℓ} → Option ErrorCode → S → Ended S (Unit {0})
throw_if_error none = return tt
throw_if_error (some e) = throw (system_error e)
