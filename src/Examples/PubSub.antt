-- ===== src/Examples/PubSub.antt =====
-- examples/async_pubsub.cpp: a publisher and a subscriber, two asynchronous clients that share no
-- state. Their marks are about the timers, one where a wait begins, is cancelled or has ended, and the
-- lines of the output.
pub mod Publisher
pub mod Subscriber
use redisclient_libary.Common.{
  Bytes, ◌||◌, List, [], ◌∷◌, ◌++◌, ◌≡◌, ℕ, zero, suc, ◌%◌, ◌^◌, codes, Option, none, some,
  if◌then◌else◌, Build, out_of_fuel,
}
use redisclient_libary.Common.Decimal.{to_string}
use redisclient_libary.Buffer.{text}
use redisclient_libary.Socket.{ErrorCode}
use redisclient_libary.Client.{
  is_connected_state, is_subscribed_state, installed, returned, crashed, ◌>>◌, return,
}
use redisclient_libary.Client.Async.{OnError, Async, Run, Calls, code, message}
use redisclient_libary.Client.Async.Loops.{write_ends, read_ends, handle_async_connect}
use redisclient_libary.Client.AsyncApi.{
  new_client, connect, disconnect, install_error_handler, publish, subscribe_channel, psubscribe,
  run_task,
}

-- The timers of `Client`.
pub data Timer : Type 0 where
  publish_timer connect_subscriber_timer connect_publisher_timer : Timer

-- The handlers that the program binds, `dummyHandler`, what happens to a timer, and a line of the
-- output.
pub data Action : Type 0 where
  on_publisher_connected on_subscriber_connected on_message dummy_handler : Action
  begins cancels ends : Timer → Action
  shows : Bytes → Action

abbrev pub channel_name : Bytes
channel_name = codes "unique-redis-channel-name-example"

abbrev pub mark : Action → Run Action Unit
mark action c = returned tt (record c { marks = c.marks ++ action ∷ [] })

-- `callLater`
unfoldable pub call_later : Timer → Run Action Unit
call_later timer = mark (begins timer)

-- `onPublisherConnected`
unfoldable pub publisher_connected : Option ErrorCode → Run Action Unit
unfolding call_later
publisher_connected (some e) = call_later connect_publisher_timer
publisher_connected none = call_later publish_timer

-- What the publisher's handlers do.
unfoldable pub publisher_call : Calls Action
unfolding publisher_connected
publisher_call on_publisher_connected (code ec) = publisher_connected ec
publisher_call _ _ = return tt

-- `connectPublisher`
unfoldable pub connect_publisher : Run Action Unit
unfolding connect disconnect publisher_call
connect_publisher c =
    ((if is_connected_state c.state then disconnect >> mark (cancels publish_timer) else return tt)
        >> connect publisher_call on_publisher_connected
        >> return tt)
      c

-- The error handler of the publisher.
abbrev pub publisher_errors : OnError Action
publisher_errors = record { on_error = λ note. connect_publisher }

-- How often the publish timer has ended: the static counter of `onPublishTimeout`.
abbrev pub timeouts : List Action → ℕ
timeouts [] = 0
timeouts (ends publish_timer ∷ marks) = suc (timeouts marks)
timeouts (_ ∷ marks) = timeouts marks

-- `Client::publish`
unfoldable pub publish_text : Build → Bytes → Run Action Unit
unfolding publish
publish_text build str =
    publish ⦃errors = publisher_errors⦄ build channel_name (text str) dummy_handler

-- `errorPubProxy`, which nothing calls.
unfoldable pub error_pub_proxy : Bytes → Run Action Unit
unfolding connect_publisher
error_pub_proxy note = mark (cancels publish_timer) >> connect_publisher

-- `onPublishTimeout`
unfoldable pub on_publish_timeout : Build → ℕ → Run Action Unit
unfolding call_later publish_text
on_publish_timeout build counter c =
    ((if is_connected_state c.state
          then publish_text build (codes "message " ++ to_string (counter % 2 ^ 64))
          else return tt)
        >> call_later publish_timer)
      c

-- The end of a wait, and the function that is called then.
unfoldable pub publisher_timer : Build → Timer → Run Action Unit
unfolding on_publish_timeout connect_publisher
publisher_timer build publish_timer c =
    (mark (ends publish_timer) >> on_publish_timeout build (timeouts c.marks)) c
publisher_timer build connect_publisher_timer c =
    (mark (ends connect_publisher_timer) >> connect_publisher) c
publisher_timer build connect_subscriber_timer c = returned tt c

-- `onSubscriberConnected`, with what the error handler does.
unfoldable pub subscriber_connected : OnError Action → Build → Option ErrorCode → Run Action Unit
unfolding call_later subscribe_channel psubscribe
subscriber_connected errors build (some e) = call_later connect_subscriber_timer
subscriber_connected errors build none =
    subscribe_channel ⦃errors = errors⦄ build channel_name on_message dummy_handler
    >> psubscribe ⦃errors = errors⦄ build (codes "*") on_message dummy_handler
    >> return tt

unfoldable pub subscriber_call : OnError Action → Build → Calls Action
unfolding subscriber_connected
subscriber_call errors build on_subscriber_connected (code ec) =
    subscriber_connected errors build ec
subscriber_call errors build on_message (message m) = mark (shows (codes "onMessage: " ++ m))
subscriber_call errors build _ _ = return tt

-- `connectSubscriber`
unfoldable pub connect_subscriber : OnError Action → Build → Run Action Unit
unfolding connect disconnect subscriber_call
connect_subscriber errors build c =
    ((if is_connected_state c.state || is_subscribed_state c.state then disconnect else return tt)
        >> connect (subscriber_call errors build) on_subscriber_connected
        >> return tt)
      c

-- `errorSubProxy`, which nothing calls.
unfoldable pub error_sub_proxy : OnError Action → Build → Bytes → Run Action Unit
unfolding connect_subscriber
error_sub_proxy errors build note = connect_subscriber errors build

-- The error handler of the subscriber. It may get called inside of itself, as often as the stack has
-- room for.
unfoldable pub subscriber_errors : Build → ℕ → OnError Action
unfolding connect_subscriber
subscriber_errors build zero = record { on_error = λ note c. crashed out_of_fuel }
subscriber_errors build (suc depth) = record {
  on_error = λ note. connect_subscriber (subscriber_errors build depth) build;
}

unfoldable pub subscriber_timer : OnError Action → Build → Timer → Run Action Unit
unfolding connect_subscriber
subscriber_timer errors build connect_subscriber_timer =
    mark (ends connect_subscriber_timer) >> connect_subscriber errors build
subscriber_timer errors build _ = return tt

-- The constructor of `Client` installs the error handlers, and `start` connects.
unfoldable pub start_publisher : Run Action Unit
unfolding connect_publisher install_error_handler
start_publisher = install_error_handler installed >> connect_publisher

unfoldable pub start_subscriber : OnError Action → Build → Run Action Unit
unfolding connect_subscriber install_error_handler
start_subscriber errors build = install_error_handler installed >> connect_subscriber errors build

-- What the system and the strand do to a client of the program.
pub data Happening : Type 0 where
  connection_ends : Option ErrorCode → Happening
  task_runs : Happening
  write_is_over : Option ErrorCode → Happening
  read_is_over : Option ErrorCode → Bytes → Happening
  timer_ends : Timer → Happening

-- The steps of a client with its error handler, its handlers, the one of a connection, and timers.
unfoldable pub happen :
    OnError Action
    → Calls Action
    → Action
    → (Timer → Run Action Unit)
    → Build
    → (Option ErrorCode → Bytes)
    → Happening
    → Run Action Unit
happen errors call on_connected timer build describe (connection_ends ec) =
    handle_async_connect ⦃errors = errors⦄ call ec on_connected
happen errors call on_connected timer build describe task_runs =
    run_task ⦃errors = errors⦄ describe call
happen errors call on_connected timer build describe (write_is_over ec) =
    write_ends ⦃errors = errors⦄ describe ec
happen errors call on_connected timer build describe (read_is_over ec chunk) =
    read_ends ⦃errors = errors⦄ build describe call ec chunk
happen errors call on_connected timer build describe (timer_ends t) = timer t

abbrev pub publisher_happen : Build → (Option ErrorCode → Bytes) → Happening → Run Action Unit
publisher_happen build =
    happen publisher_errors publisher_call on_publisher_connected (publisher_timer build) build

abbrev pub subscriber_happen : ℕ → Build → (Option ErrorCode → Bytes) → Happening → Run Action Unit
subscriber_happen depth build =
    let errors = subscriber_errors build depth in
    happen errors (subscriber_call errors build) on_subscriber_connected
      (subscriber_timer errors build) build

-- The clients of a program that a start and a number of happenings lead to.
pub data Runs (start : Run Action Unit) (step : Happening → Run Action Unit)
    : List Happening → Async Action → Type 0 where
  starts : {c : Async Action} → start new_client ≡ returned tt c → Runs start step [] c
  goes_on :
      {before : List Happening} {c d : Async Action} (h : Happening)
      → Runs start step before c
      → step h c ≡ returned tt d
      → Runs start step (h ∷ before) d
