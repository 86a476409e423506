-- ===== src/Client/AsyncApi/Ids.antt =====
-- The ids that subscriptions get, over the life of a client.
pub mod Ascending
use redisclient_libary.Common.{
  Bytes, false, List, ℕ, suc, ◌+◌, ◌^◌, ◌<◌, ◌≤◌, length, Option, none, some, Build, debug, release,
  ◌≡◌, refl, sym, Bool-cases, inl, inr, arith,
}
use mathlib.Core.Path.{subst}
use redisclient_libary.Socket.{ErrorCode}
use redisclient_libary.Client.{
  State, unconnected, connected, closed, Ended, returned, thrown, crashed, waiting, return, ◌>>=◌,
  ◌>>◌, ◌>>◌,
}
use redisclient_libary.Client.Async.{
  OnError, Async, Run, Calls, code, invoke, process_message, close,
}
use redisclient_libary.Client.Async.Loops.{handle_async_connect}
use redisclient_libary.Client.Async.Subscriptions.{
  may_subscribe, when_open, subscribe, single_shot_subscribe, unsubscribe,
}
use redisclient_libary.Client.Async.Handles.{when_open-opened}
use redisclient_libary.Client.AsyncApi.{
  connect, connect_local, disconnect, install_error_handler, command, publish, subscribe_channel,
  psubscribe, unsubscribe_handle, punsubscribe, single_shot, single_shot_psubscribe,
}
use redisclient_libary.Client.AsyncApi.Events.{
  Event, connects, connects_local, connect_ends, disconnects, installs, commands, publishes,
  subscribes, psubscribes, single_shots, single_shot_patterns, unsubscribes, punsubscribes,
  runs_task, ends_write, ends_read, occur, returns, throws, Reachable, new,
}
use redisclient_libary.Client.AsyncApi.Keeping.{Holds, Keeps, bind-Keeps}
use redisclient_libary.Client.AsyncApi.Keeping.Tasks.{
  when_open-Keeps, post_command-Keeps, write_ends-Keeps, run_task-Keeps, invoke-Keeps,
}
use redisclient_libary.Client.AsyncApi.Keeping.Reads.{read_ends-Keeps}
use redisclient_libary.Client.AsyncApi.Ids.Ascending.{
  Ascends, erase_handle-Ascends, IssuedBelow, HandlersIssueNone, ErrorsIssueNone, issue-IssuedBelow,
}

module _ {H : Type 0} ⦃errors : OnError H⦄ where
  -- Without an open connection it does not matter what would be done on one.
  when_open-closed :
      {A : Type 0} (build : Build) (name : Bytes) (otherwise : A) (run other : Run H A)
      (c : Async H)
      → may_subscribe c.state ≡ false
      → when_open build name otherwise run c ≡ when_open build name otherwise other c
  unfolding when_open
  when_open-closed debug name otherwise run other c e = rw (◌>>◌, ◌>>=◌, e) refl
  when_open-closed release name otherwise run other c e = rw (◌>>◌, ◌>>=◌, e) refl

  module _ (call : Calls H) (keep : HandlersIssueNone call) (calm : ErrorsIssueNone errors)
      (build : Build) (describe : Option ErrorCode → Bytes) (dummy : H) where
    -- A return of something else.
    then_return-Keeps :
        {A B : Type 0} (k : ℕ) (run : Run H A) (x : A → B) (c : Async H)
        → Keeps (IssuedBelow k) (run c)
        → Keeps (IssuedBelow k) ((run >>= λ a. return (x a)) c)
    then_return-Keeps k run x c kept =
        bind-Keeps (IssuedBelow k) run (λ a. return (x a)) c kept λ _ d t. t

    weaker-Keeps :
        {A : Type 0} (k : ℕ) (e : Ended (Async H) A)
        → Keeps (IssuedBelow k) e
        → Keeps (IssuedBelow (k + 1)) e
    weaker-Keeps k (returned x d) (a, l) = (a, omega (arith, l))
    weaker-Keeps k (thrown x d) (a, l) = (a, omega (arith, l))
    weaker-Keeps k (crashed f) a = a
    weaker-Keeps k waiting a = a

    subscribe-Keeps :
        (k : ℕ) (cmd channel : Bytes) (msg_handler handler : H) (c : Async H)
        → k + 1 < 2 ^ 64
        → Holds (IssuedBelow k) c
        → Keeps (IssuedBelow (k + 1)) (subscribe build cmd channel msg_handler handler c)
    unfolding subscribe
    subscribe-Keeps k cmd channel msg_handler handler c small h =
        elim (Bool-cases (may_subscribe c.state)) [
          | inl e ↦
              subst (Keeps (IssuedBelow (k + 1))) (sym (when_open-opened build _ 0 _ c e))
                (issue-IssuedBelow k c.msg_handlers c.subscribe_seq channel msg_handler small h)
          | inr e ↦
              subst (Keeps (IssuedBelow (k + 1)))
                (sym (when_open-closed build _ 0 _ (returned 0) c e))
                (weaker-Keeps k _
                  (when_open-Keeps (IssuedBelow k) (calm k) build _ 0 (returned 0) c (λ _ f. f) h))
        ]

    refused-Keeps :
        (k : ℕ) (handler : H) (c : Async H)
        → Holds (IssuedBelow k) c
        → Keeps (IssuedBelow k) ((invoke call handler (code none) >> return false) c)
    refused-Keeps k handler c h =
        bind-Keeps (IssuedBelow k) (invoke call handler (code none)) (λ _. return false) c
          (invoke-Keeps (IssuedBelow k) (calm k) call (keep k) handler (code none) c h) λ _ d f. f

    connect-Keeps :
        (k : ℕ) (handler : H) (s : State) (c : Async H)
        → Holds (IssuedBelow k) c
        → Keeps (IssuedBelow k) (connect call handler (record c { state = s }))
    unfolding connect
    connect-Keeps k handler unconnected c h = h
    connect-Keeps k handler closed c h = h
    connect-Keeps k handler s c h = refused-Keeps k handler (record c { state = s }) h

    connect_local-Keeps :
        (k : ℕ) (handler : H) (s : State) (c : Async H)
        → Holds (IssuedBelow k) c
        → Keeps (IssuedBelow k) (connect_local call handler (record c { state = s }))
    unfolding connect_local
    connect_local-Keeps k handler unconnected c h = h
    connect_local-Keeps k handler closed c h = h
    connect_local-Keeps k handler s c h = refused-Keeps k handler (record c { state = s }) h

    occur-IssuedBelow :
        (k : ℕ) (e : Event H) (c : Async H)
        → k + 1 < 2 ^ 64
        → Holds (IssuedBelow k) c
        → Keeps (IssuedBelow (k + 1)) (occur build describe call dummy e c)
    unfolding occur command publish subscribe_channel psubscribe unsubscribe_handle punsubscribe
        single_shot single_shot_psubscribe single_shot_subscribe unsubscribe install_error_handler
        disconnect close handle_async_connect process_message
    occur-IssuedBelow k (connects handler) c small h =
        weaker-Keeps k _
          (then_return-Keeps k (connect call handler) _ c (connect-Keeps k handler c.state c h))
    occur-IssuedBelow k (connects_local handler) c small h = weaker-Keeps k _ (
        then_return-Keeps k (connect_local call handler) _ c
          (connect_local-Keeps k handler c.state c h))
    occur-IssuedBelow k (connect_ends none handler) c small h = weaker-Keeps k _ (
        bind-Keeps (IssuedBelow k) (invoke call handler (code none)) (λ _. process_message) _
          (invoke-Keeps (IssuedBelow k) (calm k) call (keep k) handler (code none)
            (record c { state = connected }) h)
          λ _ d f. f)
    occur-IssuedBelow k (connect_ends (some x) handler) c small h = weaker-Keeps k _ (
        invoke-Keeps (IssuedBelow k) (calm k) call (keep k) handler (code (some x))
          (record c { state = unconnected }) h)
    occur-IssuedBelow k disconnects c small (a, l) = (omega arith, omega (arith, l))
    occur-IssuedBelow k (installs handler) c small (a, l) = (a, omega (arith, l))
    occur-IssuedBelow k (commands cmd args handler) c small h =
        weaker-Keeps k _ (post_command-Keeps (IssuedBelow k) (calm k) build _ handler c h)
    occur-IssuedBelow k (publishes channel msg handler) c small h =
        weaker-Keeps k _ (post_command-Keeps (IssuedBelow k) (calm k) build _ handler c h)
    occur-IssuedBelow k (subscribes channel msg_handler handler) c small h =
        then_return-Keeps (k + 1) (subscribe_channel build channel msg_handler handler) _ c (
          then_return-Keeps (k + 1) (subscribe build _ channel msg_handler handler) _ c
            (subscribe-Keeps k _ channel msg_handler handler c small h))
    occur-IssuedBelow k (psubscribes channel msg_handler handler) c small h =
        then_return-Keeps (k + 1) (psubscribe build channel msg_handler handler) _ c (
          then_return-Keeps (k + 1) (subscribe build _ channel msg_handler handler) _ c
            (subscribe-Keeps k _ channel msg_handler handler c small h))
    occur-IssuedBelow k (single_shots channel msg_handler handler) c small h =
        weaker-Keeps k _ (when_open-Keeps (IssuedBelow k) (calm k) build _ tt _ c (λ _ f. f) h)
    occur-IssuedBelow k (single_shot_patterns pattern msg_handler handler) c small h =
        weaker-Keeps k _ (when_open-Keeps (IssuedBelow k) (calm k) build _ tt _ c (λ _ f. f) h)
    occur-IssuedBelow k (unsubscribes handle) c small h = weaker-Keeps k _ (
        when_open-Keeps (IssuedBelow k) (calm k) build _ tt _ c
          (λ d f. (erase_handle-Ascends 0 d.msg_handlers d.subscribe_seq _ _ f.0, f.1)) h)
    occur-IssuedBelow k (punsubscribes handle) c small h = weaker-Keeps k _ (
        when_open-Keeps (IssuedBelow k) (calm k) build _ tt _ c
          (λ d f. (erase_handle-Ascends 0 d.msg_handlers d.subscribe_seq _ _ f.0, f.1)) h)
    occur-IssuedBelow k runs_task c small h =
        weaker-Keeps k _ (run_task-Keeps (IssuedBelow k) (calm k) call (keep k) describe c h)
    occur-IssuedBelow k (ends_write ec) c small h =
        weaker-Keeps k _ (write_ends-Keeps (IssuedBelow k) (calm k) describe ec c h)
    occur-IssuedBelow k (ends_read ec chunk) c small h =
        weaker-Keeps k _
          (read_ends-Keeps (IssuedBelow k) (calm k) call (keep k) build describe ec chunk c h)

    settled :
        (events : List (Event H)) (d : Async H)
        → Holds (IssuedBelow (length events + 1)) d
        → Ascends 0 d.msg_handlers d.subscribe_seq × (d.subscribe_seq ≤ suc (length events))
    settled events d (a, l) = (a, omega (arith, l))

    -- Over the whole life of a client, with whatever the strand and the system do to it, exceptions
    -- included, the entries of its message handlers have ids that ascend in their order, each below
    -- the one that comes next; so a handle stands for one entry at most. No more ids than events
    -- were given out. This is for fewer events than a `size_t` counts, and for handlers, and a
    -- function installed for errors, that do not subscribe themselves.
    pub Reachable-Ascends :
        (events : List (Event H)) (c : Async H)
        → Reachable build describe call dummy events c
        → length events < 2 ^ 64
        → Ascends 0 c.msg_handlers c.subscribe_seq × (c.subscribe_seq ≤ length events)
    Reachable-Ascends _ _ new small = (omega arith, omega arith)
    Reachable-Ascends _ d (returns {events} {c} e r can h) small = settled events d (
        subst (Keeps (IssuedBelow (length events + 1))) h (
          occur-IssuedBelow (length events) e c (omega (arith, small))
            (Reachable-Ascends events c r (omega (arith, small)))))
    Reachable-Ascends _ d (throws {events} {c} e x r can h) small = settled events d (
        subst (Keeps (IssuedBelow (length events + 1))) h (
          occur-IssuedBelow (length events) e c (omega (arith, small))
            (Reachable-Ascends events c r (omega (arith, small)))))
