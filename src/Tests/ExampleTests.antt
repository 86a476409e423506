-- ===== src/Tests/ExampleTests.antt =====
-- async_pubsub.cpp on concrete input.
use redisclient_libary.Common.{
  Bytes, List, [], ◌∷◌, ℕ, codes, Option, none, some, release, ◌≡◌, refl,
}
use redisclient_libary.Socket.{ErrorCode, system}
use redisclient_libary.Client.{
  connecting, subscribed, installed, Ended, returned, thrown, crashed, waiting,
}
use redisclient_libary.Client.Async.{Async, invoke, process_message, report, close, post}
use redisclient_libary.Client.Async.Loops.{handle_async_connect, read_ends, async_read}
use redisclient_libary.Client.AsyncApi.{
  new_client, connect, disconnect, install_error_handler, publish, post_command, statement_valid,
}
use redisclient_libary.Client.AsyncApi.Keeping.{Holds}
use redisclient_libary.Examples.PubSub.{
  Action, Happening, connection_ends, timer_ends, read_is_over, write_is_over, publish_timer, Runs,
  starts, goes_on, start_publisher, publisher_happen, publisher_call, connect_publisher,
  publisher_timer, publish_text, on_publish_timeout, publisher_connected, call_later, happen,
  subscriber_happen,
}
use redisclient_libary.Examples.PubSub.Publisher.{HasNext, Runs-HasNext}
use redisclient_libary.Examples.PubSub.Subscriber.{recursion_fault, lost_connection}

abbrev an_error : Option ErrorCode → Bytes
an_error ec = codes "an error"

abbrev landed : Ended (Async Action) (Unit {0}) → Async Action
landed (returned x d) = d
landed (thrown e d) = d
landed (crashed f) = new_client
landed waiting = new_client

abbrev lost : Happening
lost = read_is_over (some (system 104)) []

abbrev dialing : Async Action
dialing = landed (start_publisher new_client)

abbrev publishing : Async Action
publishing = landed (publisher_happen release an_error (connection_ends none) dialing)

abbrev published : Async Action
published = landed (publisher_happen release an_error (timer_ends publish_timer) publishing)

abbrev dialing_again : Async Action
dialing_again = landed (publisher_happen release an_error lost published)

abbrev publisher_history : List Happening
publisher_history = lost ∷ timer_ends publish_timer ∷ connection_ends none ∷ []

dialing_again-Runs :
    Runs start_publisher (publisher_happen release an_error) publisher_history dialing_again
unfolding start_publisher install_error_handler connect_publisher connect disconnect close happen
    handle_async_connect invoke publisher_call publisher_connected call_later process_message
    publisher_timer on_publish_timeout publish_text publish post_command statement_valid post
    read_ends async_read report
dialing_again-Runs =
    goes_on {c = published} lost
      (goes_on {c = publishing} (timer_ends publish_timer)
        (goes_on {c = dialing} (connection_ends none) (starts refl) refl) refl)
      refl

Runs-HasNext_example : Holds HasNext dialing_again
Runs-HasNext_example =
    Runs-HasNext release an_error publisher_history dialing_again dialing_again-Runs

-- A subscriber with one write under way.
abbrev subscribing : Async Action
subscribing = record new_client {
  state = subscribed;
  error_handler = installed;
  reads = 1;
  writes = 1;
}

lost_connection_example :
    (d : Async Action) × (subscriber_happen 9 release an_error lost subscribing ≡ returned tt d)
    × (d.state ≡ connecting)
    × (◌≡◌ {A = ℕ} d.writes 1)
    × ((x : ErrorCode)
        → subscriber_happen 9 release an_error (write_is_over (some x)) d
          ≡ crashed (recursion_fault release))
lost_connection_example =
    lost_connection release 8 an_error subscribing (system 104) [] refl refl refl
