-- ===== src/Client/AsyncApi/Keeping.antt =====
-- What an operation leaves true of the state of a connection and of the subscriptions.
pub mod Tasks
pub mod Reads
use redisclient_libary.Common.{Bytes, List, ℕ}
use redisclient_libary.Client.{State, Ended, ◌>>=◌}
use redisclient_libary.Client.Ends.{Ends, bind-Ends}
use redisclient_libary.Client.Async.{OnError, Async, Run, Calls, Argument}

-- A property of the state, the message handlers, the next id, and the caller's marks.
abbrev pub Property : Type 0 → Type 1
Property H = State → List (Bytes × (ℕ × H)) → ℕ → List H → Type 0

module _ {H : Type 0} (P : Property H) where
  abbrev pub Holds : Async H → Type 0
  Holds c = P c.state c.msg_handlers c.subscribe_seq c.marks

  -- An operation that returns or throws does so with the property.
  abbrev pub Keeps : {A : Type 0} → Ended (Async H) A → Type 0
  Keeps = Ends (λ _. Unit) Holds

  abbrev pub HandlersKeep : Calls H → Type 0
  HandlersKeep call = (h : H) (x : Argument) (c : Async H) → Holds c → Keeps (call h x c)

  abbrev pub ErrorsKeep : OnError H → Type 0
  ErrorsKeep e = (note : Bytes) (c : Async H) → Holds c → Keeps (e.on_error note c)

  pub bind-Keeps :
      {A B : Type 0} (run : Run H A) (next : A → Run H B) (c : Async H)
      → Keeps (run c)
      → ((x : A) (d : Async H) → Holds d → Keeps (next x d))
      → Keeps ((run >>= next) c)
  bind-Keeps run next c k h = bind-Ends (λ _. Unit) Holds run next c k h
