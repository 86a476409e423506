-- ===== src/Client/AsyncApi/Sound/Operations.antt =====
-- The operations of a client and the ends of its writes keep what holds of it at all times.
use redisclient_libary.Common.{
  Bytes, Bool, true, false, List, [], ◌∷◌, ◌++◌, ℕ, All, All-append, Build, ◌≡◌, refl, Bool-cases,
  inl, inr, if◌then◌else◌, arith,
}
use redisclient_libary.Buffer.{RedisBuffer}
use redisclient_libary.Command.{make_command}
use redisclient_libary.Client.{is_connected_state, ErrorHandler, return, require}
use redisclient_libary.Client.Async.{OnError, Async, Run, Task, command_task, report, post, close}
use redisclient_libary.Client.Async.Subscriptions.{
  may_subscribe, when_open, subscribe, single_shot_subscribe, unsubscribe,
}
use redisclient_libary.Client.AsyncApi.{
  disconnect, install_error_handler, statement_valid, post_command,
}
use redisclient_libary.Client.AsyncApi.Sound.{
  ErrorsKeepSound, bind-KeepsSound, IsSound, IsCommand, KeepsSound, report-KeepsSound,
  require-KeepsSound,
}

module _ {H : Type 0} ⦃errors : OnError H⦄ (safe : ErrorsKeepSound errors) where
  posted :
      (task : Task H) (c : Async H)
      → IsCommand task
      → IsSound c
      → All IsCommand (c.tasks ++ task ∷ [])
  posted task c h s = All-append IsCommand c.tasks (task ∷ []) s.commands_only (h, tt)

  post-KeepsSound :
      (task : Task H) (c : Async H) → IsCommand task → IsSound c → KeepsSound (post task c)
  unfolding post
  post-KeepsSound task c h s = record {
    one_write = s.one_write;
    flat = s.flat;
    commands_only = posted task c h s;
    no_message = s.no_message;
  }

  statement_valid-KeepsSound :
      (build : Build) (c : Async H) → IsSound c → KeepsSound (statement_valid build c)
  unfolding statement_valid
  statement_valid-KeepsSound build c s =
      bind-KeepsSound (require build (is_connected_state c.state)) _ c
        (require-KeepsSound build (is_connected_state c.state) c s)
        λ _ d t. elim (Bool-cases (is_connected_state d.state)) [
          | inl e ↦ rw e t
          | inr e ↦ rw e (bind-KeepsSound (report _) _ d (report-KeepsSound _ d safe t) λ _ _ u. u)
        ]

  pub post_command-KeepsSound :
      (build : Build) (items : List RedisBuffer) (handler : H) (c : Async H)
      → IsSound c
      → KeepsSound (post_command build items handler c)
  unfolding post_command
  post_command-KeepsSound build items handler c s =
      bind-KeepsSound (statement_valid build) _ c (statement_valid-KeepsSound build c s) next
    where
      next :
          (valid : Bool) (d : Async H)
          → IsSound d
          → KeepsSound
              ((if valid then post (command_task (make_command items) handler) else return tt) d)
      next true d t = post-KeepsSound _ d tt t
      next false d t = t

  when_open-KeepsSound :
      {A : Type 0} (build : Build) (name : Bytes) (otherwise : A) (run : Run H A) (c : Async H)
      → ((d : Async H) → IsSound d → KeepsSound (run d))
      → IsSound c
      → KeepsSound (when_open build name otherwise run c)
  unfolding when_open
  when_open-KeepsSound build name otherwise run c h s =
      bind-KeepsSound (require build (may_subscribe c.state)) _ c
        (require-KeepsSound build (may_subscribe c.state) c s)
        λ _ d t. elim (Bool-cases (may_subscribe d.state)) [
          | inl e ↦ rw e (h d t)
          | inr e ↦ rw e (bind-KeepsSound (report _) _ d (report-KeepsSound _ d safe t) λ _ _ u. u)
        ]

  with_task :
      (task : Task H) (c d : Async H)
      → IsCommand task
      → IsSound c
      → d ≡ record c {
        tasks = c.tasks ++ task ∷ [];
        msg_handlers = d.msg_handlers;
        single_shot_msg_handlers = d.single_shot_msg_handlers;
        state = d.state;
        subscribe_seq = d.subscribe_seq;
      }
      → IsSound d
  with_task task c d h s e = rw e (record {
    one_write = s.one_write;
    flat = s.flat;
    commands_only = posted task c h s;
    no_message = s.no_message;
  })

  pub subscribe-KeepsSound :
      (build : Build) (command channel : Bytes) (msg_handler handler : H) (c : Async H)
      → IsSound c
      → KeepsSound (subscribe build command channel msg_handler handler c)
  unfolding subscribe
  subscribe-KeepsSound build command channel msg_handler handler c s =
      when_open-KeepsSound build _ 0 _ c (λ d t. with_task _ d _ tt t refl) s

  pub single_shot_subscribe-KeepsSound :
      (build : Build) (command channel : Bytes) (msg_handler handler : H) (c : Async H)
      → IsSound c
      → KeepsSound (single_shot_subscribe build command channel msg_handler handler c)
  unfolding single_shot_subscribe
  single_shot_subscribe-KeepsSound build command channel msg_handler handler c s =
      when_open-KeepsSound build _ tt _ c (λ d t. with_task _ d _ tt t refl) s

  pub unsubscribe-KeepsSound :
      (build : Build) (command : Bytes) (id : ℕ) (channel : Bytes) (handler : H) (c : Async H)
      → IsSound c
      → KeepsSound (unsubscribe build command id channel handler c)
  unfolding unsubscribe
  unsubscribe-KeepsSound build command id channel handler c s =
      when_open-KeepsSound build _ tt _ c (λ d t. with_task _ d _ tt t refl) s

  pub install-KeepsSound :
      (handler : ErrorHandler) (c : Async H)
      → IsSound c
      → KeepsSound (install_error_handler handler c)
  unfolding install_error_handler
  install-KeepsSound handler c s = ground arith

  pub disconnect-KeepsSound : (c : Async H) → IsSound c → KeepsSound (disconnect c)
  unfolding disconnect close
  disconnect-KeepsSound c s = ground arith
