-- ===== src/Client/AsyncApi/States/Diagram.antt =====
-- The connection of a client follows the abstract machine.
use mathlib.Core.Path.{subst}
use redisclient_libary.Common.{
  Bytes, false, List, Option, none, some, Build, ◌≡◌, refl, ap, ◌∙◌, sym, Bool-cases, inl, inr,
  if◌then◌else◌,
}
use redisclient_libary.Socket.{ErrorCode}
use redisclient_libary.Client.{
  State, unconnected, connecting, connected, subscribed, closed, ◌>>=◌, ◌>>◌, return, require,
}
use redisclient_libary.Client.Async.{
  OnError, Async, Run, Calls, code, invoke, report, process_message, close,
}
use redisclient_libary.Client.Async.Loops.{handle_async_connect}
use redisclient_libary.Client.Async.Handles.{when_open-opened}
use redisclient_libary.Client.Async.Subscriptions.{
  may_subscribe, when_open, subscribe, single_shot_subscribe, unsubscribe,
}
use redisclient_libary.Client.AsyncApi.{
  connect, connect_local, disconnect, install_error_handler, command, publish, subscribe_channel,
  psubscribe, unsubscribe_handle, punsubscribe, single_shot, single_shot_psubscribe, may_connect,
}
use redisclient_libary.Client.AsyncApi.Events.{
  Event, connects, connects_local, connect_ends, disconnects, installs, commands, publishes,
  subscribes, psubscribes, single_shots, single_shot_patterns, unsubscribes, punsubscribes,
  runs_task, ends_write, ends_read, occur, returns, throws, Reachable, new,
}
use redisclient_libary.Client.AsyncApi.Keeping.{HandlersKeep, ErrorsKeep, bind-Keeps}
use redisclient_libary.Client.AsyncApi.States.{
  InState, ErrorsKeepState, next_state, state_after, EndsIn, HandlersKeepState,
  HandlersKeepState-HandlersKeep, ErrorsKeepState-ErrorsKeep,
}
use redisclient_libary.Client.AsyncApi.Keeping.Reads.{read_ends-Keeps}
use redisclient_libary.Client.AsyncApi.Keeping.Tasks.{
  when_open-Keeps, report-Keeps, require-Keeps, post_command-Keeps, write_ends-Keeps,
  run_task-Keeps, invoke-Keeps,
}

module _ {H : Type 0} ⦃errors : OnError H⦄ (calm : ErrorsKeepState errors) where
  quiet : (s : State) → ErrorsKeep (InState s) errors
  quiet s = ErrorsKeepState-ErrorsKeep errors s calm

  then_return-EndsIn :
      {A B : Type 0} (s : State) (run : Run H A) (x : A → B) (c : Async H)
      → EndsIn s (run c)
      → EndsIn s ((run >>= λ a. return (x a)) c)
  then_return-EndsIn s run x c k = bind-Keeps (InState s) run (λ a. return (x a)) c k λ _ d t. t

  closed-EndsIn :
      {A : Type 0} (build : Build) (name : Bytes) (otherwise : A) (run : Run H A) (c : Async H)
      → may_subscribe c.state ≡ false
      → EndsIn c.state (when_open build name otherwise run c)
  unfolding when_open
  closed-EndsIn build name otherwise run c e =
      bind-Keeps (InState c.state) (require build (may_subscribe c.state)) _ c
        (require-Keeps (InState c.state) (quiet c.state) build (may_subscribe c.state) c refl)
        λ _ d f.
          let g : may_subscribe d.state ≡ false = ap may_subscribe f ∙ e in
          rw g (
            bind-Keeps (InState c.state) (report _) _ d
              (report-Keeps (InState c.state) (quiet c.state) _ d f) λ _ _ u. u)

  -- An operation that wants an open connection: what it does, or a report in the same state.
  opened-EndsIn :
      {A : Type 0} (build : Build) (name : Bytes) (otherwise : A) (run : Run H A) (c : Async H)
      (s : State)
      → ((d : Async H) → d.state ≡ c.state → EndsIn s (run d))
      → EndsIn (if may_subscribe c.state then s else c.state) (when_open build name otherwise run c)
  opened-EndsIn build name otherwise run c s h = elim (Bool-cases (may_subscribe c.state)) [
    | inl e ↦
        subst (EndsIn _) (sym (when_open-opened build name otherwise run c e)) (rw e (h c refl))
    | inr e ↦ rw e (closed-EndsIn build name otherwise run c e)
  ]

  module _ (call : Calls H) (keep : HandlersKeepState call) where
    kept : (s : State) → HandlersKeep (InState s) call
    kept s = HandlersKeepState-HandlersKeep call s keep

    refused-EndsIn :
        (handler : H) (c : Async H)
        → EndsIn c.state ((invoke call handler (code none) >> return false) c)
    refused-EndsIn handler c =
        bind-Keeps (InState c.state) (invoke call handler (code none)) (λ _. return false) c
          (invoke-Keeps (InState c.state) (quiet c.state) call (kept c.state) handler (code none) c
            refl)
          λ _ d f. f

    connect-EndsIn :
        (handler : H) (s : State) (c : Async H)
        → EndsIn
            (if may_connect s then connecting else s)
            (connect call handler (record c { state = s }))
    unfolding connect
    connect-EndsIn handler unconnected c = refl
    connect-EndsIn handler connecting c = refused-EndsIn handler (record c { state = connecting })
    connect-EndsIn handler connected c = refused-EndsIn handler (record c { state = connected })
    connect-EndsIn handler subscribed c = refused-EndsIn handler (record c { state = subscribed })
    connect-EndsIn handler closed c = refl

    connect_local-EndsIn :
        (handler : H) (s : State) (c : Async H)
        → EndsIn
            (if may_connect s then connecting else s)
            (connect_local call handler (record c { state = s }))
    unfolding connect_local
    connect_local-EndsIn handler unconnected c = refl
    connect_local-EndsIn handler closed c = refl
    connect_local-EndsIn handler connecting c =
        refused-EndsIn handler (record c { state = connecting })
    connect_local-EndsIn handler connected c =
        refused-EndsIn handler (record c { state = connected })
    connect_local-EndsIn handler subscribed c =
        refused-EndsIn handler (record c { state = subscribed })

    module _ (build : Build) (describe : Option ErrorCode → Bytes) (dummy : H) where
      pub occur-next_state :
          (e : Event H) (c : Async H)
          → EndsIn (next_state e c.state) (occur build describe call dummy e c)
      unfolding occur command publish subscribe_channel psubscribe unsubscribe_handle punsubscribe
          single_shot single_shot_psubscribe subscribe single_shot_subscribe unsubscribe
          install_error_handler disconnect close handle_async_connect process_message
      occur-next_state (connects handler) c =
          then_return-EndsIn _ (connect call handler) _ c (connect-EndsIn handler c.state c)
      occur-next_state (connects_local handler) c =
          then_return-EndsIn _ (connect_local call handler) _ c
            (connect_local-EndsIn handler c.state c)
      occur-next_state (connect_ends none handler) c =
          bind-Keeps (InState connected) (invoke call handler (code none)) (λ _. process_message) _
            (invoke-Keeps (InState connected) (quiet connected) call (kept connected) handler
              (code none) (record c { state = connected }) refl)
            λ _ d f. f
      occur-next_state (connect_ends (some x) handler) c =
          invoke-Keeps (InState unconnected) (quiet unconnected) call (kept unconnected) handler
            (code (some x)) (record c { state = unconnected }) refl
      occur-next_state disconnects c = refl
      occur-next_state (installs handler) c = refl
      occur-next_state (commands cmd args handler) c =
          post_command-Keeps (InState c.state) (quiet c.state) build _ handler c refl
      occur-next_state (publishes channel msg handler) c =
          post_command-Keeps (InState c.state) (quiet c.state) build _ handler c refl
      occur-next_state (subscribes channel msg_handler handler) c =
          then_return-EndsIn _ (subscribe_channel build channel msg_handler handler) _ c (
            then_return-EndsIn _ (subscribe build _ channel msg_handler handler) _ c
              (opened-EndsIn build _ 0 _ c subscribed λ _ _. refl))
      occur-next_state (psubscribes pattern msg_handler handler) c =
          then_return-EndsIn _ (psubscribe build pattern msg_handler handler) _ c (
            then_return-EndsIn _ (subscribe build _ pattern msg_handler handler) _ c
              (opened-EndsIn build _ 0 _ c subscribed λ _ _. refl))
      occur-next_state (single_shots channel msg_handler handler) c =
          opened-EndsIn build _ tt _ c subscribed λ _ _. refl
      occur-next_state (single_shot_patterns pattern msg_handler handler) c =
          opened-EndsIn build _ tt _ c subscribed λ _ _. refl
      occur-next_state (unsubscribes handle) c =
          when_open-Keeps (InState c.state) (quiet c.state) build _ tt _ c (λ _ f. f) refl
      occur-next_state (punsubscribes handle) c =
          when_open-Keeps (InState c.state) (quiet c.state) build _ tt _ c (λ _ f. f) refl
      occur-next_state runs_task c =
          run_task-Keeps (InState c.state) (quiet c.state) call (kept c.state) describe c refl
      occur-next_state (ends_write ec) c =
          write_ends-Keeps (InState c.state) (quiet c.state) describe ec c refl
      occur-next_state (ends_read ec chunk) c =
          read_ends-Keeps (InState c.state) (quiet c.state) call (kept c.state) build describe ec
            chunk c refl

      -- Whatever happened to a client, exceptions included, its connection is in the state that the
      -- abstract machine is in behind the same events: only a connection that the system reports
      -- without an error makes it connected, only a subscription in that state makes it subscribed,
      -- and errors of reads and writes leave it as it is. This is for handlers, and a
      -- function installed for errors, that do not connect, disconnect or subscribe.
      pub Reachable-state_after :
          (events : List (Event H)) (c : Async H)
          → Reachable build describe call dummy events c
          → c.state ≡ state_after events
      Reachable-state_after _ _ new = refl
      Reachable-state_after _ d (returns {events} {c} e r can h) =
          subst (EndsIn (next_state e c.state)) h (occur-next_state e c)
          ∙ ap (next_state e) (Reachable-state_after events c r)
      Reachable-state_after _ d (throws {events} {c} e x r can h) =
          subst (EndsIn (next_state e c.state)) h (occur-next_state e c)
          ∙ ap (next_state e) (Reachable-state_after events c r)
