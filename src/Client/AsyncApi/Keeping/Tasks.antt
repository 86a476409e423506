-- ===== src/Client/AsyncApi/Keeping/Tasks.antt =====
-- Posts, reports, writes and the tasks of the strand leave a property as it is.
use redisclient_libary.Common.{
  Bytes, Bool, true, false, List, [], ◌∷◌, ◌++◌, ◌-◌, Option, none, some, Build, debug, release,
  Bool-cases, inl, inr, if◌then◌else◌,
}
use redisclient_libary.Buffer.{RedisBuffer}
use redisclient_libary.Socket.{ErrorCode}
use redisclient_libary.Command.{make_command}
use redisclient_libary.Client.{
  ErrorHandler, default_handler, installed, is_connected_state, return, require,
}
use redisclient_libary.Client.Async.{
  OnError, Async, Run, Calls, Argument, Task, message, command_task, message_task, invoke, report,
  post,
}
use redisclient_libary.Client.Async.Subscriptions.{may_subscribe, when_open}
use redisclient_libary.Client.Async.Loops.{async_write, write_ends, do_async_command}
use redisclient_libary.Client.AsyncApi.{statement_valid, post_command, run_task}
use redisclient_libary.Client.AsyncApi.Keeping.{
  Property, Holds, Keeps, HandlersKeep, ErrorsKeep, bind-Keeps,
}

module _ {H : Type 0} ⦃errors : OnError H⦄ (P : Property H) (calm : ErrorsKeep P errors) where
  -- A client with this error handler.
  told :
      (note : Bytes) (c : Async H) (handler : ErrorHandler)
      → Holds P c
      → Keeps P (report note (record c { error_handler = handler }))
  unfolding report
  told note c default_handler e = e
  told note c installed e =
      calm note (record c { error_handler = installed; messages = c.messages ++ note ∷ [] }) e

  pub report-Keeps : (note : Bytes) (c : Async H) → Holds P c → Keeps P (report note c)
  report-Keeps note c e = told note c c.error_handler e

  pub require-Keeps :
      (build : Build) (test : Bool) (c : Async H) → Holds P c → Keeps P (require build test c)
  require-Keeps release test c e = e
  require-Keeps debug true c e = e
  require-Keeps debug false c e = tt

  pub post-Keeps : (task : Task H) (c : Async H) → Holds P c → Keeps P (post task c)
  unfolding post
  post-Keeps task c e = e

  statement_valid-Keeps :
      (build : Build) (c : Async H) → Holds P c → Keeps P (statement_valid build c)
  unfolding statement_valid
  statement_valid-Keeps build c e =
      bind-Keeps P (require build (is_connected_state c.state)) _ c
        (require-Keeps build (is_connected_state c.state) c e)
        λ _ d f. elim (Bool-cases (is_connected_state d.state)) [
          | inl g ↦ rw g f
          | inr g ↦ rw g (bind-Keeps P (report _) _ d (report-Keeps _ d f) λ _ _ u. u)
        ]

  -- What wants an open connection is done, or reported as an error.
  pub when_open-Keeps :
      {A : Type 0} (build : Build) (name : Bytes) (otherwise : A) (run : Run H A) (c : Async H)
      → ((d : Async H) → Holds P d → Keeps P (run d))
      → Holds P c
      → Keeps P (when_open build name otherwise run c)
  unfolding when_open
  when_open-Keeps build name otherwise run c h e =
      bind-Keeps P (require build (may_subscribe c.state)) _ c
        (require-Keeps build (may_subscribe c.state) c e)
        λ _ d f. elim (Bool-cases (may_subscribe d.state)) [
          | inl g ↦ rw g (h d f)
          | inr g ↦ rw g (bind-Keeps P (report _) _ d (report-Keeps _ d f) λ _ _ u. u)
        ]

  pub post_command-Keeps :
      (build : Build) (items : List RedisBuffer) (handler : H) (c : Async H)
      → Holds P c
      → Keeps P (post_command build items handler c)
  unfolding post_command
  post_command-Keeps build items handler c e =
      bind-Keeps P (statement_valid build) _ c (statement_valid-Keeps build c e) next
    where
      next :
          (valid : Bool) (d : Async H)
          → Holds P d
          → Keeps P
              ((if valid then post (command_task (make_command items) handler) else return tt) d)
      next true d f = post-Keeps _ d f
      next false d f = f

  -- Writes.
  Keeps-async_write :
      (describe : Option ErrorCode → Bytes) (ec : Option ErrorCode) (c : Async H) (q : List Bytes)
      → Holds P c
      → Keeps P (async_write describe ec (record c { data_queued = q }))
  unfolding async_write
  Keeps-async_write describe (some x) c q e = report-Keeps _ _ e
  Keeps-async_write describe none c [] e = e
  Keeps-async_write describe none c (x ∷ q) e = e

  pub write_ends-Keeps :
      (describe : Option ErrorCode → Bytes) (ec : Option ErrorCode) (c : Async H)
      → Holds P c
      → Keeps P (write_ends describe ec c)
  unfolding write_ends
  write_ends-Keeps describe ec c e =
      Keeps-async_write describe ec (record c { writes = c.writes - 1 }) c.data_queued e

  do_async_command-Keeps :
      (describe : Option ErrorCode → Bytes) (buff : Bytes) (handler : H) (c : Async H)
      (w : List Bytes)
      → Holds P c
      → Keeps P (do_async_command describe buff handler (record c { data_written = w }))
  unfolding do_async_command
  do_async_command-Keeps describe buff handler c [] e =
      Keeps-async_write describe none
        (record c { handlers = c.handlers ++ handler ∷ []; data_written = [] })
        (c.data_queued ++ buff ∷ []) e
  do_async_command-Keeps describe buff handler c (_ ∷ _) e = e

  module _ (call : Calls H) (keep : HandlersKeep P call) where
    pub invoke-Keeps :
        (h : H) (x : Argument) (c : Async H) → Holds P c → Keeps P (invoke call h x c)
    unfolding invoke
    invoke-Keeps h x c e = keep h x (record c { calls = c.calls ++ (h, x) ∷ [] }) e

    task-Keeps :
        (describe : Option ErrorCode → Bytes) (tasks : List (Task H)) (c : Async H)
        → Holds P c
        → Keeps P (run_task describe call (record c { tasks = tasks }))
    unfolding run_task
    task-Keeps describe [] c e = e
    task-Keeps describe (command_task buff handler ∷ rest) c e =
        do_async_command-Keeps describe buff handler (record c { tasks = rest }) c.data_written e
    task-Keeps describe (message_task handler msg ∷ rest) c e =
        invoke-Keeps handler (message msg) (record c { tasks = rest }) e

    pub run_task-Keeps :
        (describe : Option ErrorCode → Bytes) (c : Async H)
        → Holds P c
        → Keeps P (run_task describe call c)
    run_task-Keeps describe c e = task-Keeps describe c.tasks c e
