-- ===== src/Examples/PubSub/Subscriber.antt =====
-- The subscriber of examples/async_pubsub.cpp loses its connection while a write is under way.
use redisclient_libary.Common.{
  Bytes, true, false, [], ◌∷◌, ◌++◌, ℕ, zero, suc, Option, none, some, Build, debug, release, Fault,
  assert_failed, out_of_fuel, ◌≡◌, refl, ◌∙◌, ap, codes, ◌-◌,
}
use redisclient_libary.Parser.{new_parser}
use redisclient_libary.Socket.{ErrorCode}
use redisclient_libary.Client.{
  State, unconnected, connecting, connected, subscribed, closed, installed, state_name, returned,
  crashed, ◌>>=◌, ◌>>◌,
}
use redisclient_libary.Client.Async.{OnError, Async, code, report, invoke, close, is_aborted}
use redisclient_libary.Client.Async.Loops.{write_ends, read_ends, async_write, async_read}
use redisclient_libary.Client.Async.Subscriptions.{may_subscribe, when_open, subscribe}
use redisclient_libary.Client.AsyncApi.{connect, disconnect, subscribe_channel}
use redisclient_libary.Examples.PubSub.{
  Action, on_subscriber_connected, connect_subscriber, subscriber_connected, subscriber_call,
  subscriber_errors, write_is_over, read_is_over, happen, subscriber_happen,
}

-- How a build ends that connects while it is connecting.
abbrev pub recursion_fault : Build → Fault
recursion_fault debug = assert_failed
recursion_fault release = out_of_fuel

abbrev connecting_client : Async Action → Async Action
connecting_client c = record c { state = connecting; error_handler = installed }

-- The handler of the connection is called at once, subscribes, and that is reported as an error.
connecting-crashes :
    (errors : OnError Action) (build : Build) (c : Async Action)
    → (build ≡ release
        → (note : Bytes) (d : Async Action)
        → errors.on_error note (connecting_client d) ≡ crashed out_of_fuel)
    → connect_subscriber errors build (connecting_client c) ≡ crashed (recursion_fault build)
unfolding connect_subscriber connect disconnect invoke subscriber_call subscriber_connected
    subscribe_channel subscribe when_open report
connecting-crashes errors debug c h = refl
connecting-crashes errors release c h =
    rw
      (
        ◌>>◌,
        ◌>>=◌,
        h refl
            (codes "RedisClientImpl::subscribe called with invalid state " ++ state_name connecting)
            (record c {
              calls = c.calls ++ (on_subscriber_connected, code none) ∷ [];
              messages =
                  c.messages
                  ++ (codes "RedisClientImpl::subscribe called with invalid state "
                      ++ state_name connecting)
                    ∷ [];
            }),
      )
      refl

error-crashes :
    (depth : ℕ) (note : Bytes) (c : Async Action)
    → (subscriber_errors release depth).on_error note (connecting_client c) ≡ crashed out_of_fuel
unfolding subscriber_errors
error-crashes zero note c = refl
error-crashes (suc depth) note c =
    connecting-crashes (subscriber_errors release depth) release c (λ _. error-crashes depth)

-- In either build.
report-crashes :
    (build : Build) (depth : ℕ) (note : Bytes) (c : Async Action)
    → report ⦃errors = subscriber_errors build (suc depth)⦄ note (connecting_client c)
      ≡ crashed (recursion_fault build)
unfolding report subscriber_errors
report-crashes debug depth note c =
    connecting-crashes (subscriber_errors debug depth) debug
      (record c { messages = c.messages ++ note ∷ [] }) (λ e. cc e)
report-crashes release depth note c =
    connecting-crashes (subscriber_errors release depth) release
      (record c { messages = c.messages ++ note ∷ [] }) (λ _. error-crashes depth)

write-crashes :
    (build : Build) (depth : ℕ) (describe : Option ErrorCode → Bytes) (x : ErrorCode)
    (c : Async Action)
    → subscriber_happen (suc depth) build describe (write_is_over (some x)) (connecting_client c)
      ≡ crashed (recursion_fault build)
unfolding happen write_ends async_write
write-crashes build depth describe x c =
    report-crashes build depth (describe (some x))
      (record c { writes = c.writes - 1; data_written = [] })

module _ (build : Build) (depth : ℕ) (describe : Option ErrorCode → Bytes) where
  abbrev reconnecting : Async Action → ErrorCode → Async Action
  reconnecting c e = record c {
    parser = new_parser;
    state = connecting;
    error_handler = installed;
    handlers = [];
    msg_handlers = [];
    reads = c.reads - 1;
    messages = c.messages ++ describe (some e) ∷ [];
  }

  abbrev open_client : State → Async Action → Async Action
  open_client s c = record c { state = s; error_handler = installed }

  read-reconnects :
      (s : State) (c : Async Action) (e : ErrorCode) (chunk : Bytes)
      → may_subscribe s ≡ true
      → is_aborted (some e) ≡ false
      → subscriber_happen (suc depth) build describe (read_is_over (some e) chunk) (open_client s c)
        ≡ returned tt (reconnecting c e)
  unfolding happen read_ends async_read report subscriber_errors connect_subscriber connect
      disconnect close
  read-reconnects connected c e chunk on f = rw f refl
  read-reconnects subscribed c e chunk on f = rw f refl
  read-reconnects unconnected c e chunk on f = cc on
  read-reconnects connecting c e chunk on f = cc on
  read-reconnects closed c e chunk on f = cc on

  -- The subscriber of the example loses its connection: a read ends with an error while a write is
  -- under way, which is under way still when the client connects again. If that write ends with an
  -- error too, as one that is aborted does, the error handler calls itself until the stack has no room,
  -- whatever its depth; with assertions the program fails at one of them.
  pub lost_connection :
      (c : Async Action) (e : ErrorCode) (chunk : Bytes)
      → c.error_handler ≡ installed
      → may_subscribe c.state ≡ true
      → is_aborted (some e) ≡ false
      → (d : Async Action) × (subscriber_happen
            (suc depth)
            build
            describe
            (read_is_over (some e) chunk)
            c
          ≡ returned tt d)
        × (d.state ≡ connecting)
        × (d.writes ≡ c.writes)
        × ((x : ErrorCode)
            → subscriber_happen (suc depth) build describe (write_is_over (some x)) d
              ≡ crashed (recursion_fault build))
  lost_connection c e chunk i on f = (
    reconnecting c e,
    ap
          (λ h.
            subscriber_happen (suc depth) build describe (read_is_over (some e) chunk)
              (record c { error_handler = h }))
          i
        ∙ read-reconnects c.state c e chunk on f,
    refl,
    refl,
    λ x. write-crashes build depth describe x (reconnecting c e),
  )
