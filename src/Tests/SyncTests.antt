-- ===== src/Tests/SyncTests.antt =====
-- The synchronous client on concrete input.
use redisclient_libary.Common.{
  ok, true, List, [], ◌∷◌, ◌++◌, flatten, codes, Option, none, some, debug, release, ◌≡◌, ◌⊎◌, refl,
  arith,
}
use redisclient_libary.Common.Decimal.{to_string}
use redisclient_libary.Value.{bytes_value, null_value, array_value}
use redisclient_libary.Parser.{new_parser, parse, Parsed, completed}
use redisclient_libary.Parser.Print.{meaning, Reply, simple, bulk_string}
use redisclient_libary.Parser.Delivery.{IsIdle}
use redisclient_libary.Socket.{ErrorCode, eof, Written, socket_write, turn, socket_write_impl}
use redisclient_libary.Buffer.{RedisBuffer, text}
use redisclient_libary.Command.{make_command}
use redisclient_libary.Client.{returned, waiting, connected, installed}
use redisclient_libary.Client.Sync.{
  OnError, Sync, do_sync_command, do_sync_commands, sync_read_response,
}
use redisclient_libary.Client.Sync.Listening.{listening}
use redisclient_libary.Client.Sync.Response.{Answers, sync_read_response-Answers}
use redisclient_libary.Client.Sync.Safe.{ErrorsKeepReadable, IsReadable, EndsSafely}
use redisclient_libary.Client.Sync.Safe.Loop.{sync_read_response-EndsSafely}
use redisclient_libary.Client.Sync.Safe.Commands.{EndsWhole, do_sync_commands-EndsWhole}
use redisclient_libary.Parser.Arrays.{new-IsSaved}
use redisclient_libary.Client.Sync.Replies.{meanings, Replied, sent}
use redisclient_libary.Client.Sync.Errors.{do_sync_command-stale}
use redisclient_libary.Client.SyncApi.{new_client, command, pipelined}
use redisclient_libary.Client.SyncApi.Pipelines.{command-Replied, pipelined-Replied}
use redisclient_libary.Client.Connect.{
  SystemAnswers, option_value, einprogress, connect_ec, connect_ec_in_progress,
}
use redisclient_libary.Tests.SocketTests.{
  giving, giving-IsRecv, signalled, signalled-IsRecv, taking, taking-IsSend, two_commands, fast,
  two_out, two_written,
}

-- The function that is installed for errors does nothing.
instance abbrev pub silent : OnError
silent = record { on_error = λ note c. returned tt c }

abbrev client : Sync
client = record (new_client fast []) { state = connected }

new-IsIdle : IsIdle new_parser
new-IsIdle = record { no_state = refl; no_array = refl }

abbrev ok_parsed : Parsed
ok_parsed = record {
  consumed = 5;
  result = completed;
  parser = record new_parser { buf = codes "OK"; redis_value = bytes_value (codes "OK") };
}

parse_ok : parse debug new_parser (codes "+OK\r\n:1") ≡ ok ok_parsed
unfolding parse
parse_ok = refl

sync_read_response-Answers_example :
    Answers client (codes "+O" ++ flatten (codes "K\r" ∷ codes "\n:1" ∷ [])) ok_parsed (
      sync_read_response debug
        (listening client new_parser (codes "+O") (codes "K\r" ∷ codes "\n:1" ∷ [])))
sync_read_response-Answers_example =
    sync_read_response-Answers debug client new_parser (codes "+O")
      (codes "K\r" ∷ codes "\n:1" ∷ []) ok_parsed
      ((omega arith, omega arith), ((omega arith, omega arith), tt)) parse_ok refl (omega arith)

abbrev two_replies : List Reply
two_replies = simple (codes "PONG") ∷ bulk_string (codes "v") ∷ []

pipelined-Replied_example :
    Replied (sent client two_out) (codes "+x") (array_value (meanings two_replies)) (
      pipelined release two_commands
        (listening client new_parser [] (codes "+PONG\r\n$1\r" ∷ codes "\nv\r\n+x" ∷ [])))
unfolding to_string
pipelined-Replied_example =
    pipelined-Replied release client two_commands two_replies new_parser []
      (codes "+PONG\r\n$1\r" ∷ codes "\nv\r\n+x" ∷ []) (codes "+x") two_out refl refl new-IsIdle
      ((omega arith, omega arith), (omega arith, tt))
      ((omega arith, omega arith), ((omega arith, omega arith), tt)) refl two_written refl

abbrev stale_client : Sync
stale_client = record (new_client (taking 100 ∷ []) []) { state = connected; ec = some eof }

abbrev ping : List RedisBuffer
ping = text (codes "PING") ∷ []

abbrev stale_out : Written
stale_out = record { sent = 14; wire = codes "*1\r\n$4\r\nPING\r\n"; ec = some eof; attempts = [] }

stale_written : socket_write (taking 100 ∷ []) (some eof) (make_command ping) ≡ some stale_out
unfolding socket_write make_command turn socket_write_impl to_string
stale_written = refl

do_sync_command-stale_example :
    (e : ErrorCode) × (do_sync_command debug ping stale_client
      ≡ returned null_value (record (sent stale_client stale_out) { ec = some e }))
do_sync_command-stale_example =
    do_sync_command-stale debug stale_client ping eof stale_out refl (taking-IsSend 100, tt)
      stale_written

abbrev in_progress : SystemAnswers
in_progress = record {
  opened = none;
  no_delay = none;
  first_flags = none;
  second_flags = none;
  dialed = some einprogress;
  rounds = option_value 0 0 ∷ option_value 0 0 ∷ [];
  last_flags = none;
  cleared = none;
}

connect_ec_in_progress_example :
    (connect_ec true in_progress client ≡ waiting)
    ⊎ ((ec : Option ErrorCode) × (connect_ec true in_progress client
          ≡ returned tt (record client { ec = ec })))
connect_ec_in_progress_example = connect_ec_in_progress true in_progress client refl

abbrev ping_out : Written
ping_out = record {
  sent = 14;
  wire = codes "*1\r\n$4\r\nPING\r\n";
  ec = none;
  attempts = taking 100 ∷ [];
}

ping_written : socket_write fast none (make_command ping) ≡ some ping_out
unfolding socket_write make_command turn socket_write_impl to_string
ping_written = refl

command-Replied_example :
    Replied (sent client ping_out) (codes "+x") (meaning (simple (codes "PONG"))) (
      command debug
        (codes "PING")
        []
        (listening client new_parser (codes "+PO") (codes "NG\r\n+x" ∷ [])))
command-Replied_example =
    command-Replied debug client (codes "PING") [] (simple (codes "PONG")) new_parser (codes "+PO")
      (codes "NG\r\n+x" ∷ []) (codes "+x") ping_out refl new-IsIdle (omega arith)
      ((omega arith, omega arith), tt) refl ping_written refl

-- A part of a reply, a signal, and a byte that no number has.
abbrev ill_served : Sync
ill_served = record client {
  error_handler = installed;
  buf = codes ":1";
  receives = signalled ∷ giving (codes "x") ∷ [];
}

silent-ErrorsKeepReadable : ErrorsKeepReadable silent
silent-ErrorsKeepReadable note c h = h

ill_served-IsReadable : IsReadable ill_served
ill_served-IsReadable = record {
  flat = new-IsSaved;
  in_room = omega arith;
  receives = (signalled-IsRecv, (giving-IsRecv (codes "x"), tt));
}

sync_read_response-EndsSafely_example : EndsSafely (sync_read_response debug ill_served)
sync_read_response-EndsSafely_example =
    sync_read_response-EndsSafely silent-ErrorsKeepReadable debug ill_served ill_served-IsReadable

do_sync_commands-EndsWhole_example : EndsWhole 2 (do_sync_commands debug two_commands ill_served)
do_sync_commands-EndsWhole_example =
    do_sync_commands-EndsWhole silent-ErrorsKeepReadable debug two_commands ill_served
      ill_served-IsReadable
