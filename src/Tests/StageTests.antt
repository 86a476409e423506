-- ===== src/Tests/StageTests.antt =====
-- A run of async_set_get.cpp in which a reply begins to arrive before the write has ended.
use redisclient_libary.Common.{
  Bytes, [], ◌++◌, length, ◌==◌, codes, none, release, ◌≡◌, refl, arith, if◌then◌else◌,
}
use redisclient_libary.Common.Decimal.{to_string}
use redisclient_libary.Parser.Print.{Reply, simple, failure, bulk_string, IsSendable}
use redisclient_libary.Command.{make_command}
use redisclient_libary.Socket.{ErrorCode}
use redisclient_libary.Client.{Ended, returned, thrown, crashed, waiting}
use redisclient_libary.Client.Async.{OnError, Async, invoke, process_message, post}
use redisclient_libary.Client.Async.Loops.{
  read_ends, write_ends, handle_async_connect, do_async_command, async_write, async_read, read_loop,
  read_round,
}
use redisclient_libary.Client.AsyncApi.{
  new_client, run_task, connect, command, post_command, statement_valid,
}
use redisclient_libary.Parser.{parse}
use redisclient_libary.Examples.AsyncSetGet.{
  Action, text_of, connecting_well, set_get_call, handle_connected, async_set_get,
}
use redisclient_libary.Examples.AsyncSetGet.Turns.{
  Turn, set_turn, get_turn, del_turn, sent_with, got_with, reply_to, IsAnswering, Runs, starts,
  task_runs, write_is_over, bytes_arrive,
}
use redisclient_libary.Examples.AsyncSetGet.Outcomes.{GetsThrough, Runs-GetsThrough}

instance abbrev no_errors : OnError Action
no_errors = record { on_error = λ note c. returned tt c }

abbrev told : ErrorCode → Bytes
told e = codes "an error"

abbrev stored : Reply
stored = simple (codes "OK")

abbrev found : Reply
found = bulk_string (codes "v")

abbrev refused : Reply
refused = failure (codes "ERR")

abbrev all_replies : Turn → Bytes
all_replies = got_with stored found refused

-- A server that knows the requests by their lengths.
abbrev server : Bytes → Bytes
server wire =
    if length wire == 0
    then []
    else if length wire == length (sent_with set_turn)
    then all_replies set_turn
    else if length wire == length (sent_with get_turn)
    then all_replies get_turn
    else all_replies del_turn

server-answers : (t : Turn) → server (sent_with t) ≡ all_replies t
unfolding make_command to_string
server-answers set_turn = refl
server-answers get_turn = refl
server-answers del_turn = refl

server-IsAnswering : IsAnswering stored found refused server
server-IsAnswering = record { silent = refl; answers = server-answers }

are-IsSendable : (t : Turn) → IsSendable (reply_to stored found refused t)
are-IsSendable set_turn = (omega arith, omega arith)
are-IsSendable get_turn = omega arith
are-IsSendable del_turn = (omega arith, omega arith)

abbrev landed : Ended (Async Action) (Unit {0}) → Async Action
landed (returned x d) = d
landed (thrown e d) = d
landed (crashed f) = new_client
landed waiting = new_client

abbrev greeted : Async Action
greeted = landed (connecting_well release told new_client)

abbrev asking : Async Action
asking = landed (run_task (text_of release told) (set_get_call release told) greeted)

abbrev hearing : Async Action
hearing =
    landed (
      read_ends release (text_of release told) (set_get_call release told) none (codes "+O") asking)

abbrev relieved : Async Action
relieved = landed (write_ends (text_of release told) none hearing)

relieved-Runs : Runs release told server relieved ([] ++ codes "+O")
unfolding connect handle_async_connect invoke process_message set_get_call handle_connected
    async_set_get command post_command statement_valid post run_task do_async_command async_write
    read_ends async_read read_loop read_round parse write_ends make_command to_string
relieved-Runs =
    write_is_over {c = hearing}
      (bytes_arrive {c = asking} (codes "+O") (codes "K\r\n")
        (task_runs {c = greeted} (starts refl) refl) (omega arith) refl refl)
      (omega arith) refl

Runs-GetsThrough_example :
    GetsThrough release told stored found refused server relieved (codes "+O")
Runs-GetsThrough_example =
    Runs-GetsThrough release told stored found refused server server-IsAnswering are-IsSendable
      relieved (codes "+O") relieved-Runs
