-- ===== src/Client/AsyncApi/Sound.antt =====
-- What holds of an asynchronous client at all times, and how runs keep it.
pub mod Reads
pub mod Operations
pub mod Tasks
pub mod Always
use redisclient_libary.Common.{
  Bytes, Bool, true, false, [], ◌∷◌, ◌++◌, ◌+◌, All, All-append, Build, debug, release, Fault,
  assert_failed, signed_overflow, empty_container, bad_get, bad_range, out_of_fuel, ◌≡◌, arith,
}
use redisclient_libary.Parser.Number.Faults.{IsNumberFault}
use redisclient_libary.Parser.Kept.{IsSaved}
use redisclient_libary.Parser.Flat.{IsFlat, Enters}
use redisclient_libary.Client.{ErrorHandler, default_handler, installed, Ended, ◌>>=◌, require}
use redisclient_libary.Client.Ends.{Ends, bind-Ends}
use redisclient_libary.Client.Async.{
  OnError, Async, Run, Calls, Argument, reply, message, code, Task, command_task, message_task,
  invoke, report,
}
use redisclient_libary.Client.Async.Writes.{outstanding}

abbrev pub IsNoMessage : Argument → Type 0
IsNoMessage (message _) = ⊥
IsNoMessage _ = Unit

-- The ways in which a run may be cut short: `bufferToLong` and the assertions fail, and a queue of
-- handlers is emptied by the handler that is called. No loop runs out of its rounds.
abbrev pub IsKnownFault : Fault → Type 0
IsKnownFault assert_failed = Unit
IsKnownFault signed_overflow = Unit
IsKnownFault empty_container = Unit
IsKnownFault _ = ⊥

pub number-IsKnownFault : (f : Fault) → IsNumberFault f → IsKnownFault f
number-IsKnownFault assert_failed h = tt
number-IsKnownFault signed_overflow h = tt
number-IsKnownFault bad_get h = elim h [ ]
number-IsKnownFault empty_container h = tt
number-IsKnownFault bad_range h = elim h [ ]
number-IsKnownFault out_of_fuel h = elim h [ ]

module _ {H : Type 0} where
  abbrev pub IsCommand : Task H → Type 0
  IsCommand (command_task _ _) = Unit
  IsCommand (message_task _ _) = ⊥

  abbrev pub HasNoMessage : H × Argument → Type 0
  HasNoMessage (h, x) = IsNoMessage x

  -- There is a write under way exactly if bytes are given away, and only one; the parser is outside of
  -- any array; no message is posted, and no handler was called with one.
  pub record IsSound (c : Async H) : Type 0 where
    pub one_write : c.writes ≡ outstanding c.data_written
    pub flat : IsSaved IsFlat Enters c.parser
    pub commands_only : All IsCommand c.tasks
    pub no_message : All HasNoMessage c.calls

  abbrev pub KeepsSound : {A : Type 0} → Ended (Async H) A → Type 0
  KeepsSound = Ends IsKnownFault IsSound

  -- Handlers that keep it when they get a reply or the code of a connection.
  abbrev pub HandlersKeepSound : Calls H → Type 0
  HandlersKeepSound call =
      (h : H) (x : Argument) (c : Async H) → IsNoMessage x → IsSound c → KeepsSound (call h x c)

  pub bind-KeepsSound :
      {A B : Type 0} (run : Run H A) (next : A → Run H B) (c : Async H)
      → KeepsSound (run c)
      → ((x : A) (d : Async H) → IsSound d → KeepsSound (next x d))
      → KeepsSound ((run >>= next) c)
  bind-KeepsSound run next c k h = bind-Ends IsKnownFault IsSound run next c k h

  -- The function that is installed for errors keeps it.
  abbrev pub ErrorsKeepSound : OnError H → Type 0
  ErrorsKeepSound e = (note : Bytes) (c : Async H) → IsSound c → KeepsSound (e.on_error note c)

  pub require-KeepsSound :
      (build : Build) (test : Bool) (c : Async H) → IsSound c → KeepsSound (require build test c)
  require-KeepsSound release test c s = s
  require-KeepsSound debug true c s = s
  require-KeepsSound debug false c s = tt

  pub invoke-KeepsSound :
      (call : Calls H) (h : H) (x : Argument) (c : Async H)
      → HandlersKeepSound call
      → IsNoMessage x
      → IsSound c
      → KeepsSound (invoke call h x c)
  unfolding invoke
  invoke-KeepsSound call h x c keep m s = keep h x _ m (record {
    one_write = s.one_write;
    flat = s.flat;
    commands_only = s.commands_only;
    no_message = All-append HasNoMessage c.calls ((h, x) ∷ []) s.no_message (m, tt);
  })

module _ {H : Type 0} ⦃errors : OnError H⦄ where
  -- A client with this error handler.
  told :
      (note : Bytes) (c : Async H) (handler : ErrorHandler)
      → ErrorsKeepSound errors
      → IsSound c
      → KeepsSound (report note (record c { error_handler = handler }))
  unfolding report
  told note c default_handler safe s = ground arith
  told note c installed safe s =
      safe note (record c { error_handler = installed; messages = c.messages ++ note ∷ [] })
        (ground arith)

  pub report-KeepsSound :
      (note : Bytes) (c : Async H) → ErrorsKeepSound errors → IsSound c → KeepsSound (report note c)
  report-KeepsSound note c safe s = told note c c.error_handler safe s
