-- ===== src/Tests/EventTests.antt =====
-- Events of an asynchronous client on concrete input.
use redisclient_libary.Common.{
  Bytes, List, [], ◌∷◌, ℕ, ◌≤◌, length, codes, Option, none, debug, ◌≡◌, refl, arith,
}
use redisclient_libary.Parser.Arrays.{new-IsSaved}
use redisclient_libary.Buffer.{raw}
use redisclient_libary.Socket.{ErrorCode}
use redisclient_libary.Client.{subscribed, Ended, returned, thrown, crashed, waiting, ◌>>◌, return}
use redisclient_libary.Parser.{parse, result}
use redisclient_libary.Client.Async.{
  Async, Calls, OnError, close, invoke, process_message, post, do_process_message, call_front,
  pop_handler,
}
use redisclient_libary.Client.Async.Loops.{
  handle_async_connect, do_async_command, async_write, read_ends, async_read, read_loop, read_round,
}
use redisclient_libary.Client.Async.Subscriptions.{subscribe, when_open}
use redisclient_libary.Client.AsyncApi.{
  new_client, connect, disconnect, command, post_command, statement_valid, run_task,
  subscribe_channel,
}
use redisclient_libary.Client.AsyncApi.Events.{
  Event, connects, connect_ends, commands, subscribes, runs_task, ends_read, occur, returns,
  Reachable, new,
}
use redisclient_libary.Client.AsyncApi.Sound.{
  ErrorsKeepSound, IsSound, KeepsSound, HandlersKeepSound,
}
use redisclient_libary.Client.AsyncApi.Sound.Always.{Reachable-IsSound, Reachable-KeepsSound}
use redisclient_libary.Client.AsyncApi.Ids.Ascending.{Ascends, HandlersIssueNone, ErrorsIssueNone}
use redisclient_libary.Client.AsyncApi.Ids.{Reachable-Ascends}
use redisclient_libary.Client.AsyncApi.States.{ErrorsKeepState, HandlersKeepState, state_after}
use redisclient_libary.Client.AsyncApi.States.Diagram.{Reachable-state_after}

abbrev quiet_call : Calls ℕ
quiet_call h x c = returned tt c

abbrev describe : Option ErrorCode → Bytes
describe ec = codes "an error"

abbrev history : List (Event ℕ)
history =
    subscribes (codes "news") 3 4
    ∷ ends_read none (codes "+v\r\n")
    ∷ runs_task
    ∷ commands (codes "GET") (raw (codes "k") ∷ []) 2
    ∷ connect_ends none 1
    ∷ connects 1
    ∷ []

module _ ⦃errors : OnError ℕ⦄ where
  abbrev happens : Event ℕ → Async ℕ → Ended (Async ℕ) (Unit {0})
  happens = occur debug describe quiet_call 0

  abbrev landed : Ended (Async ℕ) (Unit {0}) → Async ℕ
  landed (returned x d) = d
  landed (thrown e d) = d
  landed (crashed f) = new_client
  landed waiting = new_client

  abbrev dialing : Async ℕ
  dialing = landed (happens (connects 1) new_client)

  abbrev open_client : Async ℕ
  open_client = landed (happens (connect_ends none 1) dialing)

  abbrev asking : Async ℕ
  asking = landed (happens (commands (codes "GET") (raw (codes "k") ∷ []) 2) open_client)

  abbrev writing : Async ℕ
  writing = landed (happens runs_task asking)

  abbrev answered : Async ℕ
  answered = landed (happens (ends_read none (codes "+v\r\n")) writing)

  abbrev listening : Async ℕ
  listening = landed (happens (subscribes (codes "news") 3 4) answered)

  listening-Reachable : Reachable debug describe quiet_call 0 history listening
  unfolding occur connect handle_async_connect invoke process_message command post_command
      statement_valid post run_task do_async_command async_write read_ends async_read read_loop
      parse read_round result do_process_message call_front pop_handler subscribe_channel subscribe
      when_open
  listening-Reachable =
      returns {c = answered} (subscribes (codes "news") 3 4)
        (returns {c = writing} (ends_read none (codes "+v\r\n"))
          (returns {c = asking} runs_task
            (returns {c = open_client} (commands (codes "GET") (raw (codes "k") ∷ []) 2)
              (returns {c = dialing} (connect_ends none 1)
                (returns {c = new_client} (connects 1) new tt refl) tt refl)
              tt refl)
            tt refl)
          (omega arith) refl)
        tt refl

-- The function that is installed for errors connects again, as that of examples/async_pubsub.cpp.
abbrev reconnecting : OnError ℕ
reconnecting = record { on_error = λ note. disconnect >> connect quiet_call 1 >> return tt }

reconnecting-ErrorsKeepSound : ErrorsKeepSound reconnecting
unfolding connect disconnect close
reconnecting-ErrorsKeepSound note c s = record {
  one_write = s.one_write;
  flat = new-IsSaved;
  commands_only = s.commands_only;
  no_message = s.no_message;
}

-- Or it leaves the client alone.
abbrev silent : OnError ℕ
silent = record { on_error = λ note. return tt }

silent-ErrorsKeepState : ErrorsKeepState silent
silent-ErrorsKeepState note c = refl

quiet_call-HandlersKeepSound : HandlersKeepSound quiet_call
quiet_call-HandlersKeepSound h x c m s = s

quiet_call-HandlersKeepState : HandlersKeepState quiet_call
quiet_call-HandlersKeepState h x c = refl

Reachable-IsSound_example : IsSound (listening ⦃errors = reconnecting⦄)
Reachable-IsSound_example =
    Reachable-IsSound ⦃errors = reconnecting⦄ debug describe quiet_call 0
      reconnecting-ErrorsKeepSound quiet_call-HandlersKeepSound history
      (listening ⦃errors = reconnecting⦄) (listening-Reachable ⦃errors = reconnecting⦄)

Reachable-KeepsSound_example : KeepsSound (
    happens ⦃errors = reconnecting⦄
      (ends_read none (codes ":x"))
      (listening ⦃errors = reconnecting⦄))
Reachable-KeepsSound_example =
    Reachable-KeepsSound ⦃errors = reconnecting⦄ debug describe quiet_call 0
      reconnecting-ErrorsKeepSound quiet_call-HandlersKeepSound history
      (listening ⦃errors = reconnecting⦄) (ends_read none (codes ":x"))
      (listening-Reachable ⦃errors = reconnecting⦄)

Reachable-state_after_example : (listening ⦃errors = silent⦄).state ≡ state_after history
Reachable-state_after_example =
    Reachable-state_after ⦃errors = silent⦄ silent-ErrorsKeepState quiet_call
      quiet_call-HandlersKeepState debug describe 0 history (listening ⦃errors = silent⦄)
      (listening-Reachable ⦃errors = silent⦄)

reconnecting-ErrorsIssueNone : ErrorsIssueNone reconnecting
unfolding connect disconnect close
reconnecting-ErrorsIssueNone k note c (a, l) = (omega arith, l)

quiet_call-HandlersIssueNone : HandlersIssueNone quiet_call
quiet_call-HandlersIssueNone k h x c s = s

Reachable-Ascends_example :
    Ascends 0
      (listening ⦃errors = reconnecting⦄).msg_handlers
      (listening ⦃errors = reconnecting⦄).subscribe_seq
    × ((listening ⦃errors = reconnecting⦄).subscribe_seq ≤ length history)
Reachable-Ascends_example =
    Reachable-Ascends ⦃errors = reconnecting⦄ quiet_call quiet_call-HandlersIssueNone
      reconnecting-ErrorsIssueNone debug describe 0 history (listening ⦃errors = reconnecting⦄)
      (listening-Reachable ⦃errors = reconnecting⦄) (omega arith)

-- The client of these events is subscribed, with one write under way.
listening_is_subscribed :
    ((listening ⦃errors = silent⦄).state ≡ subscribed) × ((listening ⦃errors = silent⦄).writes ≡ 1)
unfolding occur connect handle_async_connect invoke process_message command post_command
    statement_valid post run_task do_async_command async_write read_ends async_read read_loop parse
    read_round result do_process_message call_front pop_handler subscribe_channel subscribe
    when_open
listening_is_subscribed = (refl, refl)
