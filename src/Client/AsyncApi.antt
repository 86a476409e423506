-- ===== src/Client/AsyncApi.antt =====
-- src/redisclient/RedisAsyncClient.cpp: the public operations of the asynchronous client, and the
-- strand, which runs what was posted to it in its order.
pub mod Reconnect
pub mod Commands
pub mod Events
pub mod Keeping
pub mod Ids
pub mod Sound
pub mod States
use redisclient_libary.Common.{
  Bytes, Bool, true, false, ◌||◌, List, [], ◌∷◌, ◌++◌, ℕ, codes, Option, none, if◌then◌else◌, Build,
}
use redisclient_libary.Parser.{new_parser}
use redisclient_libary.Buffer.{RedisBuffer, text}
use redisclient_libary.Command.{make_command}
use redisclient_libary.Socket.{ErrorCode}
use redisclient_libary.Client.{
  State, unconnected, connecting, closed, state_name, is_connected_state, is_subscribed_state,
  ErrorHandler, default_handler, returned, ◌>>=◌, ◌>>◌, return, require,
}
use redisclient_libary.Client.Async.{
  OnError, Async, Run, Calls, command_task, message_task, message, code, report, invoke, post,
  close,
}
use redisclient_libary.Client.Async.Loops.{do_async_command}
use redisclient_libary.Client.Async.Subscriptions.{subscribe, single_shot_subscribe, unsubscribe}

-- What `subscribe` gives back.
pub record Handle : Type 0 where
  pub id : ℕ
  pub channel : Bytes

abbrev pub may_connect : State → Bool
may_connect unconnected = true
may_connect closed = true
may_connect _ = false

abbrev pub is_closed : State → Bool
is_closed closed = true
is_closed _ = false

module _ {H : Type 0} where
  -- The constructor.
  abbrev pub new_client : Async H
  new_client = record {
    parser = new_parser;
    state = unconnected;
    error_handler = default_handler;
    subscribe_seq = 0;
    handlers = [];
    data_written = [];
    data_queued = [];
    msg_handlers = [];
    single_shot_msg_handlers = [];
    tasks = [];
    writes = 0;
    reads = 0;
    wire = [];
    calls = [];
    messages = [];
    marks = [];
  }

  -- The first `connect`: true if the system's `async_connect` is begun.
  unfoldable pub connect : Calls H → H → Run H Bool
  connect call handler c =
      let fresh = if is_closed c.state then record c { parser = new_parser } else c in
      if may_connect c.state
      then returned true (record fresh { state = connecting })
      else (invoke call handler (code none) >> return false) fresh

  -- The second `connect`, for local sockets, which leaves the parser as it is.
  unfoldable pub connect_local : Calls H → H → Run H Bool
  connect_local call handler c =
      if may_connect c.state
      then returned true (record c { state = connecting })
      else (invoke call handler (code none) >> return false) c

  unfoldable pub is_connected : Run H Bool
  is_connected c = returned (is_connected_state c.state || is_subscribed_state c.state) c

  unfoldable pub disconnect : Run H Unit
  disconnect c = close c

  unfoldable pub install_error_handler : ErrorHandler → Run H Unit
  install_error_handler handler c = returned tt (record c { error_handler = handler })

module _ {H : Type 0} ⦃errors : OnError H⦄ where
  -- The test of `statementValid` and of `publish`.
  unfoldable pub statement_valid : Build → Run H Bool
  statement_valid build c =
      (require build (is_connected_state c.state) >> λ d.
      if is_connected_state d.state
      then returned true d
      else (report
              (codes "RedisAsyncClient::command called with invalid state " ++ state_name d.state)
            >> return false)
          d)
        c

  -- A command is posted if the state is valid.
  unfoldable pub post_command : Build → List RedisBuffer → H → Run H Unit
  post_command build items handler = statement_valid build >>= λ valid.
      if valid then post (command_task (make_command items) handler) else return tt

  unfoldable pub command : Build → Bytes → List RedisBuffer → H → Run H Unit
  command build cmd args handler = post_command build (text cmd ∷ args) handler

  unfoldable pub publish : Build → Bytes → RedisBuffer → H → Run H Unit
  publish build channel msg handler =
      post_command build (text (codes "PUBLISH") ∷ text channel ∷ msg ∷ []) handler

  unfoldable pub subscribe_channel : Build → Bytes → H → H → Run H Handle
  subscribe_channel build channel_name msg_handler handler =
      subscribe build (codes "subscribe") channel_name msg_handler handler >>= λ id.
      return (record { id = id; channel = channel_name })

  unfoldable pub psubscribe : Build → Bytes → H → H → Run H Handle
  psubscribe build pattern msg_handler handler =
      subscribe build (codes "psubscribe") pattern msg_handler handler >>= λ id.
      return (record { id = id; channel = pattern })

  -- The handler is `dummyHandler`.
  unfoldable pub unsubscribe_handle : Build → H → Handle → Run H Unit
  unsubscribe_handle build dummy handle =
      unsubscribe build (codes "unsubscribe") handle.id handle.channel dummy

  unfoldable pub punsubscribe : Build → H → Handle → Run H Unit
  punsubscribe build dummy handle =
      unsubscribe build (codes "punsubscribe") handle.id handle.channel dummy

  unfoldable pub single_shot : Build → Bytes → H → H → Run H Unit
  single_shot build channel msg_handler handler =
      single_shot_subscribe build (codes "subscribe") channel msg_handler handler

  unfoldable pub single_shot_psubscribe : Build → Bytes → H → H → Run H Unit
  single_shot_psubscribe build pattern msg_handler handler =
      single_shot_subscribe build (codes "psubscribe") pattern msg_handler handler

  -- The strand runs the first of the tasks that wait.
  unfoldable pub run_task : (Option ErrorCode → Bytes) → Calls H → Run H Unit
  run_task describe call c = elim c.tasks [
    | [] ↦ returned tt c
    | command_task buff handler ∷ rest ↦
        do_async_command describe buff handler (record c { tasks = rest })
    | message_task handler msg ∷ rest ↦
        invoke call handler (message msg) (record c { tasks = rest })
  ]
