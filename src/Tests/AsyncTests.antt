-- ===== src/Tests/AsyncTests.antt =====
-- The asynchronous client on concrete input.
use redisclient_libary.Common.{
  Bytes, List, [], ◌∷◌, ◌++◌, flatten, map, ℕ, ◌==◌, if◌then◌else◌, codes, Option, none, debug,
  release, empty_container, ◌≡◌, refl, arith,
}
use redisclient_libary.Value.{bytes_value}
use redisclient_libary.Parser.{new_parser}
use redisclient_libary.Parser.Step.{Parser}
use redisclient_libary.Parser.Print.{Reply, simple, bulk_string}
use redisclient_libary.Parser.Delivery.{IsIdle}
use redisclient_libary.Socket.{ErrorCode}
use redisclient_libary.Client.{returned, crashed, connected, subscribed, installed, ◌>>◌}
use redisclient_libary.Client.Async.{OnError, Async, Calls, close, report, do_process_message}
use redisclient_libary.Client.Async.Loops.{async_read}
use redisclient_libary.Client.Async.Answers.{IsQuiet, answered, posted, do_process_message-closing}
use redisclient_libary.Client.Async.Chunks.{feed, reading, Fed, feed-Fed}
use redisclient_libary.Common.Decimal.{to_string}
use redisclient_libary.Client.Async.Pushes.{pushed, async_read-pushed}
use redisclient_libary.Client.AsyncApi.{new_client}
use redisclient_libary.Buffer.{raw, text}
use redisclient_libary.Client.Async.{Task, Argument, reply, code}
use redisclient_libary.Client.AsyncApi.Commands.{
  Issued, task, issue-IsPosting, issue, drain, posting_client, Commanded, command-Commanded,
}
use redisclient_libary.Client.AsyncApi.Reconnect.{reconnect, busy_client, reconnect_stale}

abbrev quiet_call : Calls ℕ
quiet_call h x c = returned tt c

abbrev closing_call : Calls ℕ
closing_call h x c = close c

-- The function that is installed for errors leaves the client alone.
instance abbrev silent : OnError ℕ
silent = record { on_error = λ note c. returned tt c }

silent-returns : (note : Bytes) (c : Async ℕ) → silent.on_error note c ≡ returned tt c
silent-returns note c = refl

quiet_call-IsQuiet : IsQuiet quiet_call
quiet_call-IsQuiet h x c = refl

new-IsIdle : IsIdle new_parser
new-IsIdle = record { no_state = refl; no_array = refl }

abbrev describe : Option ErrorCode → Bytes
describe ec = codes "an error"

abbrev client : Async ℕ
client = record new_client { state = connected; error_handler = installed }

abbrev two_replies : List Reply
two_replies = simple (codes "OK") ∷ bulk_string (codes "v") ∷ []

-- A handler that gives another command when it is called.
abbrev script : ℕ → Argument → List (Issued ℕ)
script h x = if h == 7 then record { cmd = codes "PING"; args = []; handler = 9 } ∷ [] else []

abbrev asking_call : Calls ℕ
asking_call h x = issue debug (script h x)

abbrev asked : ℕ → Argument → List (Task ℕ)
asked h x = map task (script h x)

abbrev unmarked : ℕ → Argument → List ℕ
unmarked h x = []

feed-Fed_example :
    Fed client
      (9 ∷ [])
      ([] ++ answered (7 ∷ 8 ∷ []) two_replies)
      ([] ++ posted asked (answered (7 ∷ 8 ∷ []) two_replies))
      ([] ++ posted unmarked (answered (7 ∷ 8 ∷ []) two_replies))
      (feed debug describe asking_call
        (codes "+OK\r" ∷ codes "\n$1\r\n" ∷ codes "v\r\n" ∷ [])
        (reading client new_parser ((7 ∷ 8 ∷ []) ++ 9 ∷ []) [] [] []))
unfolding to_string
feed-Fed_example =
    feed-Fed asking_call asked unmarked (issue-IsPosting debug script) client debug describe
      (codes "+OK\r" ∷ codes "\n$1\r\n" ∷ codes "v\r\n" ∷ []) two_replies (7 ∷ 8 ∷ []) (9 ∷ [])
      new_parser [] [] [] (omega arith, (omega arith, (omega arith, tt))) refl refl
      ((omega arith, omega arith), (omega arith, tt)) new-IsIdle

do_process_message-closing_example :
    do_process_message closing_call (bytes_value (codes "OK")) (record client { handlers = 7 ∷ [] })
    ≡ crashed empty_container
do_process_message-closing_example =
    do_process_message-closing closing_call (record client { handlers = 7 ∷ [] })
      (bytes_value (codes "OK")) 7 [] (λ x. refl) refl refl

-- Two commands, the end of the first write and that of the second.
abbrev first_sent : Async ℕ
first_sent = record client {
  handlers = 7 ∷ [];
  data_written = codes "a" ∷ [];
  writes = 1;
  wire = codes "a";
}

abbrev second_queued : Async ℕ
second_queued = record first_sent { handlers = 7 ∷ 8 ∷ []; data_queued = codes "b" ∷ [] }

abbrev second_sent : Async ℕ
second_sent = record second_queued {
  data_written = codes "b" ∷ [];
  data_queued = [];
  wire = codes "ab";
}

abbrev subscriber : Async ℕ
subscriber = record client {
  state = subscribed;
  subscribe_seq = 1;
  msg_handlers = (codes "news", (0, 5)) ∷ [];
}

async_read-pushed_example :
    (q : Parser) × (async_read release describe quiet_call none
        (pushed (codes "news") (codes "hello"))
        subscriber
      ≡ report (codes "[RedisClient] Parser error") (record subscriber { parser = q }))
async_read-pushed_example =
    async_read-pushed release describe quiet_call subscriber (codes "news") (codes "hello")
      new-IsIdle

reconnect_stale_example :
    (d : Async ℕ) × (reconnect describe quiet_call quiet_call-IsQuiet silent-returns release 1
        (codes "c")
        9
        (codes "+O" ∷ codes "K\r\n" ∷ [])
        (busy_client describe quiet_call quiet_call-IsQuiet silent-returns first_sent
          (codes "b")
          [])
      ≡ returned tt d)
    × (d.wire ≡ codes "a" ++ (codes "b" ++ flatten ([] ++ codes "c" ∷ [])))
    × (d.calls ≡ ([] ++ (1, code none) ∷ []) ++ (9, reply (bytes_value (codes "OK"))) ∷ [])
    × (d.handlers ≡ [])
reconnect_stale_example =
    reconnect_stale describe quiet_call quiet_call-IsQuiet silent-returns release first_sent 1 9
      (codes "b") [] (codes "c") (simple (codes "OK")) (codes "+O" ∷ codes "K\r\n" ∷ [])
      ((omega arith, omega arith), ((omega arith, omega arith), tt))
      (omega arith, (omega arith, tt)) refl

abbrev two_calls : List (Issued ℕ)
two_calls =
    record { cmd = codes "PING"; args = []; handler = 7 }
    ∷ record { cmd = codes "GET"; args = raw (codes "k") ∷ []; handler = 8 }
    ∷ []

-- Given while a write is under way with a request queued behind it, and a command posted.
abbrev one_earlier : List (Issued ℕ)
one_earlier = record { cmd = codes "INCR"; args = text (codes "n") ∷ []; handler = 6 } ∷ []

command-Commanded_example : Commanded second_queued (one_earlier ++ two_calls) (
    (issue debug two_calls >> drain describe quiet_call 3)
      (posting_client one_earlier second_queued))
command-Commanded_example =
    command-Commanded debug describe quiet_call second_queued one_earlier two_calls refl
      (λ e. absurd (cc e))
