-- ===== src/Client/AsyncApi/Sound/Tasks.antt =====
-- Writes, tasks and connections keep what holds of a client at all times.
use redisclient_libary.Common.{
  Bytes, false, List, [], ◌∷◌, ◌++◌, ◌-◌, Option, none, some, ◌≡◌, arith,
}
use redisclient_libary.Socket.{ErrorCode}
use redisclient_libary.Parser.Arrays.{new-IsSaved}
use redisclient_libary.Client.{
  State, unconnected, connecting, connected, subscribed, closed, ◌>>◌, return,
}
use redisclient_libary.Client.Async.{
  OnError, Async, Calls, Task, code, command_task, message_task, invoke, process_message,
}
use redisclient_libary.Client.Async.Writes.{outstanding}
use redisclient_libary.Client.Async.Loops.{
  async_write, write_ends, do_async_command, handle_async_connect,
}
use redisclient_libary.Client.AsyncApi.{connect, connect_local, run_task}
use redisclient_libary.Client.AsyncApi.Sound.{
  ErrorsKeepSound, IsSound, KeepsSound, HandlersKeepSound, bind-KeepsSound, report-KeepsSound,
  invoke-KeepsSound,
}
use redisclient_libary.Client.AsyncApi.Sound.Reads.{process_message-KeepsSound}

module _ {H : Type 0} ⦃errors : OnError H⦄ (safe : ErrorsKeepSound errors) where
  -- A write begins if none is under way, and takes all that is queued.
  async_write-KeepsSound :
      (describe : Option ErrorCode → Bytes) (ec : Option ErrorCode) (c : Async H) (w q : List Bytes)
      → c.writes ≡ 0
      → IsSound (record c { data_written = [] })
      → KeepsSound (async_write describe ec (record c { data_written = w; data_queued = q }))
  unfolding async_write
  async_write-KeepsSound describe (some e) c w q n s = report-KeepsSound _ _ safe (ground arith)
  async_write-KeepsSound describe none c w [] n s = ground arith
  async_write-KeepsSound describe none c w (x ∷ q) n s = ground arith

  ended_writes : (c : Async H) (w : List Bytes) → c.writes ≡ outstanding w → c.writes - 1 ≡ 0
  ended_writes c [] e = omega (arith, e)
  ended_writes c (_ ∷ _) e = omega (arith, e)

  pub write_ends-KeepsSound :
      (describe : Option ErrorCode → Bytes) (ec : Option ErrorCode) (c : Async H)
      → IsSound c
      → KeepsSound (write_ends describe ec c)
  unfolding write_ends
  write_ends-KeepsSound describe ec c s =
      let none_left = ended_writes c c.data_written s.one_write in
      async_write-KeepsSound describe ec (record c { writes = c.writes - 1 }) c.data_written
        c.data_queued none_left
        (record {
          one_write = none_left;
          flat = s.flat;
          commands_only = s.commands_only;
          no_message = s.no_message;
        })

  do_async_command-KeepsSound :
      (describe : Option ErrorCode → Bytes) (buff : Bytes) (handler : H) (c : Async H)
      (w : List Bytes)
      → IsSound (record c { data_written = w })
      → KeepsSound (do_async_command describe buff handler (record c { data_written = w }))
  unfolding do_async_command
  do_async_command-KeepsSound describe buff handler c [] s =
      async_write-KeepsSound describe none (record c { handlers = c.handlers ++ handler ∷ [] }) []
        (c.data_queued ++ buff ∷ []) s.one_write (ground arith)
  do_async_command-KeepsSound describe buff handler c (_ ∷ _) s = ground arith

  module _ (call : Calls H) (keep : HandlersKeepSound call) where
    task-KeepsSound :
        (describe : Option ErrorCode → Bytes) (tasks : List (Task H)) (c : Async H)
        → IsSound (record c { tasks = tasks })
        → KeepsSound (run_task describe call (record c { tasks = tasks }))
    unfolding run_task
    task-KeepsSound describe [] c s = s
    task-KeepsSound describe (command_task buff handler ∷ rest) c s =
        do_async_command-KeepsSound describe buff handler (record c { tasks = rest }) c.data_written
          (record {
            one_write = s.one_write;
            flat = s.flat;
            commands_only = s.commands_only.1;
            no_message = s.no_message;
          })
    task-KeepsSound describe (message_task handler msg ∷ rest) c s = elim s.commands_only.0 [ ]

    pub run_task-KeepsSound :
        (describe : Option ErrorCode → Bytes) (c : Async H)
        → IsSound c
        → KeepsSound (run_task describe call c)
    run_task-KeepsSound describe c s = task-KeepsSound describe c.tasks c s

    pub handle_async_connect-KeepsSound :
        (ec : Option ErrorCode) (handler : H) (c : Async H)
        → IsSound c
        → KeepsSound (handle_async_connect call ec handler c)
    unfolding handle_async_connect
    handle_async_connect-KeepsSound none handler c s =
        bind-KeepsSound (invoke call handler (code none)) (λ _. process_message) _
          (invoke-KeepsSound call handler (code none) _ keep tt (ground arith))
          λ _ d t. process_message-KeepsSound safe d t
    handle_async_connect-KeepsSound (some e) handler c s =
        invoke-KeepsSound call handler (code (some e)) _ keep tt (ground arith)

    refused-KeepsSound :
        (handler : H) (c : Async H)
        → IsSound c
        → KeepsSound ((invoke call handler (code none) >> return false) c)
    refused-KeepsSound handler c s =
        bind-KeepsSound (invoke call handler (code none)) (λ _. return false) c
          (invoke-KeepsSound call handler (code none) c keep tt s) λ _ d t. t

    connecting-KeepsSound :
        (handler : H) (state : State) (c : Async H)
        → IsSound (record c { state = state })
        → KeepsSound (connect call handler (record c { state = state }))
    unfolding connect
    connecting-KeepsSound handler unconnected c s = ground arith
    connecting-KeepsSound handler connecting c s = refused-KeepsSound handler _ s
    connecting-KeepsSound handler connected c s = refused-KeepsSound handler _ s
    connecting-KeepsSound handler subscribed c s = refused-KeepsSound handler _ s
    connecting-KeepsSound handler closed c s = record {
      one_write = s.one_write;
      flat = new-IsSaved;
      commands_only = s.commands_only;
      no_message = s.no_message;
    }

    pub connect-KeepsSound :
        (handler : H) (c : Async H) → IsSound c → KeepsSound (connect call handler c)
    connect-KeepsSound handler c s = connecting-KeepsSound handler c.state c s

    dialing-KeepsSound :
        (handler : H) (state : State) (c : Async H)
        → IsSound (record c { state = state })
        → KeepsSound (connect_local call handler (record c { state = state }))
    unfolding connect_local
    dialing-KeepsSound handler unconnected c s = ground arith
    dialing-KeepsSound handler closed c s = ground arith
    dialing-KeepsSound handler connecting c s = refused-KeepsSound handler _ s
    dialing-KeepsSound handler connected c s = refused-KeepsSound handler _ s
    dialing-KeepsSound handler subscribed c s = refused-KeepsSound handler _ s

    pub connect_local-KeepsSound :
        (handler : H) (c : Async H) → IsSound c → KeepsSound (connect_local call handler c)
    connect_local-KeepsSound handler c s = dialing-KeepsSound handler c.state c s
