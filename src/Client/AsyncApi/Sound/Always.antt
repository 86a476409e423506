-- ===== src/Client/AsyncApi/Sound/Always.antt =====
-- What holds of an asynchronous client, whatever happens to it.
use redisclient_libary.Common.{List, Bytes, Option, Build, refl}
use mathlib.Core.Path.{subst}
use redisclient_libary.Socket.{ErrorCode}
use redisclient_libary.Parser.Arrays.{new-IsSaved}
use redisclient_libary.Client.{◌>>=◌, return}
use redisclient_libary.Client.Async.{OnError, Async, Run, Calls}
use redisclient_libary.Client.Async.Subscriptions.{subscribe}
use redisclient_libary.Client.AsyncApi.{
  connect, connect_local, command, publish, subscribe_channel, psubscribe, unsubscribe_handle,
  punsubscribe, single_shot, single_shot_psubscribe,
}
use redisclient_libary.Client.AsyncApi.Events.{
  Event, connects, connects_local, connect_ends, disconnects, installs, commands, publishes,
  subscribes, psubscribes, single_shots, single_shot_patterns, unsubscribes, punsubscribes,
  runs_task, ends_write, ends_read, occur, returns, throws, Reachable, new,
}
use redisclient_libary.Client.AsyncApi.Sound.{
  IsSound, KeepsSound, ErrorsKeepSound, bind-KeepsSound, HandlersKeepSound,
}
use redisclient_libary.Client.AsyncApi.Sound.Reads.{read_ends-KeepsSound}
use redisclient_libary.Client.AsyncApi.Sound.Operations.{
  post_command-KeepsSound, subscribe-KeepsSound, single_shot_subscribe-KeepsSound,
  unsubscribe-KeepsSound, install-KeepsSound, disconnect-KeepsSound,
}
use redisclient_libary.Client.AsyncApi.Sound.Tasks.{
  write_ends-KeepsSound, run_task-KeepsSound, handle_async_connect-KeepsSound, connect-KeepsSound,
  connect_local-KeepsSound,
}

module _ {H : Type 0} ⦃errors : OnError H⦄ where
  then_return-KeepsSound :
      {A B : Type 0} (run : Run H A) (x : A → B) (c : Async H)
      → KeepsSound (run c)
      → KeepsSound ((run >>= λ a. return (x a)) c)
  then_return-KeepsSound run x c k = bind-KeepsSound run (λ a. return (x a)) c k λ _ d t. t

  module _ (build : Build) (describe : Option ErrorCode → Bytes) (call : Calls H) (dummy : H)
      (safe : ErrorsKeepSound errors) (keep : HandlersKeepSound call) where
    pub occur-KeepsSound :
        (e : Event H) (c : Async H) → IsSound c → KeepsSound (occur build describe call dummy e c)
    unfolding occur command publish subscribe_channel psubscribe unsubscribe_handle punsubscribe
        single_shot single_shot_psubscribe
    occur-KeepsSound (connects handler) c s =
        then_return-KeepsSound (connect call handler) _ c
          (connect-KeepsSound safe call keep handler c s)
    occur-KeepsSound (connects_local handler) c s =
        then_return-KeepsSound (connect_local call handler) _ c
          (connect_local-KeepsSound safe call keep handler c s)
    occur-KeepsSound (connect_ends ec handler) c s =
        handle_async_connect-KeepsSound safe call keep ec handler c s
    occur-KeepsSound disconnects c s = disconnect-KeepsSound safe c s
    occur-KeepsSound (installs handler) c s = install-KeepsSound safe handler c s
    occur-KeepsSound (commands cmd args handler) c s =
        post_command-KeepsSound safe build _ handler c s
    occur-KeepsSound (publishes channel msg handler) c s =
        post_command-KeepsSound safe build _ handler c s
    occur-KeepsSound (subscribes channel msg_handler handler) c s =
        then_return-KeepsSound (subscribe_channel build channel msg_handler handler) _ c (
          then_return-KeepsSound (subscribe build _ channel msg_handler handler) _ c
            (subscribe-KeepsSound safe build _ channel msg_handler handler c s))
    occur-KeepsSound (psubscribes pattern msg_handler handler) c s =
        then_return-KeepsSound (psubscribe build pattern msg_handler handler) _ c (
          then_return-KeepsSound (subscribe build _ pattern msg_handler handler) _ c
            (subscribe-KeepsSound safe build _ pattern msg_handler handler c s))
    occur-KeepsSound (single_shots channel msg_handler handler) c s =
        single_shot_subscribe-KeepsSound safe build _ channel msg_handler handler c s
    occur-KeepsSound (single_shot_patterns pattern msg_handler handler) c s =
        single_shot_subscribe-KeepsSound safe build _ pattern msg_handler handler c s
    occur-KeepsSound (unsubscribes handle) c s =
        unsubscribe-KeepsSound safe build _ handle.id handle.channel dummy c s
    occur-KeepsSound (punsubscribes handle) c s =
        unsubscribe-KeepsSound safe build _ handle.id handle.channel dummy c s
    occur-KeepsSound runs_task c s = run_task-KeepsSound safe call keep describe c s
    occur-KeepsSound (ends_write ec) c s = write_ends-KeepsSound safe describe ec c s
    occur-KeepsSound (ends_read ec chunk) c s =
        read_ends-KeepsSound safe call keep build describe ec chunk c s

    -- Whatever the caller, the strand and the system do to a client, in any order and over any number of
    -- connections, errors and exceptions included: at most one write is under way, and one exactly if
    -- bytes were given away for it; the parser is outside of any array; no message was posted, and no
    -- handler was called with one. The handlers, and the function
    -- that is installed for errors, may use the client in any way that keeps this.
    pub Reachable-IsSound :
        (events : List (Event H)) (c : Async H)
        → Reachable build describe call dummy events c
        → IsSound c
    Reachable-IsSound _ _ new = record {
      one_write = refl;
      flat = new-IsSaved;
      commands_only = tt;
      no_message = tt;
    }
    Reachable-IsSound _ d (returns {events} {c} e r can h) =
        subst KeepsSound h (occur-KeepsSound e c (Reachable-IsSound events c r))
    Reachable-IsSound _ d (throws {events} {c} e x r can h) =
        subst KeepsSound h (occur-KeepsSound e c (Reachable-IsSound events c r))

    -- From such a client an event returns or throws, or ends at an assertion, in an overflow of
    -- `bufferToLong`, or at the empty queue that a handler left behind: no loop is left without an end,
    -- and no value is taken for one of another type.
    pub Reachable-KeepsSound :
        (events : List (Event H)) (c : Async H) (e : Event H)
        → Reachable build describe call dummy events c
        → KeepsSound (occur build describe call dummy e c)
    Reachable-KeepsSound events c e r = occur-KeepsSound e c (Reachable-IsSound events c r)
