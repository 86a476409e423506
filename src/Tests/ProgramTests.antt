-- ===== src/Tests/ProgramTests.antt =====
-- sync_set_get.cpp and sync_pipeline.cpp on concrete input.
use redisclient_libary.Common.{
  Bytes, List, [], ◌∷◌, flatten, map, length, codes, none, some, release, ◌≡◌, refl, arith, true,
}
use redisclient_libary.Common.Decimal.{to_string, to_string_int}
use redisclient_libary.Parser.Print.{Reply, simple, failure, number, bulk_string}
use redisclient_libary.Common.Int.{pos}
use redisclient_libary.Socket.{
  SendAttempt, Written, socket_write, socket_write_buffers, turn, socket_write_impl,
}
use redisclient_libary.Command.{make_command}
use redisclient_libary.Client.{connected, returned}
use redisclient_libary.Client.Sync.Listening.{arriving}
use redisclient_libary.Client.SyncApi.{new_client}
use redisclient_libary.Client.Connect.{SystemAnswers, connect_ec, dial, settle}
use redisclient_libary.Examples.Console.{Session, exit_success}
use redisclient_libary.Examples.Serving.{Sends}
use redisclient_libary.Examples.SyncPrograms.{sync_set_get, sync_pipeline, example_pipeline}
use redisclient_libary.Examples.SyncPrograms.Dialogue.{
  Shows, shown_set_get, sent_set_get, set_items, get_items, sync_set_get-Shows,
}
use redisclient_libary.Examples.SyncPrograms.Results.{result_line, sync_pipeline-Shows}
use redisclient_libary.Tests.SocketTests.{taking}
use redisclient_libary.Tests.SyncTests.{silent}

abbrev pub connects_at_once : SystemAnswers
connects_at_once = record {
  opened = none;
  no_delay = none;
  first_flags = none;
  second_flags = none;
  dialed = none;
  rounds = [];
  last_flags = none;
  cleared = none;
}

abbrev attempts_for : {A : Type 0} → List A → List SendAttempt
attempts_for [] = []
attempts_for (x ∷ xs) = taking 4096 ∷ attempts_for xs

abbrev pub started : List SendAttempt → List Bytes → Session
started sends chunks = record {
  client = new_client sends (map arriving chunks);
  out = [];
  err = [];
}

abbrev pub open_session : List SendAttempt → List Bytes → Session
open_session sends chunks = record (started sends chunks) {
  client = record (new_client sends (map arriving chunks)) { state = connected };
}

pub connects :
    (sends : List SendAttempt) (chunks : List Bytes)
    → connect_ec true connects_at_once (started sends chunks).client
      ≡ returned tt (open_session sends chunks).client
unfolding connect_ec dial settle
connects sends chunks = refl

-- What goes out in one piece.
abbrev pub whole : Bytes → List SendAttempt → Written
whole request attempts = record {
  sent = length request;
  wire = request;
  ec = none;
  attempts = attempts;
}

abbrev two_chunks : List Bytes
two_chunks = codes "+OK\r\n$5\r\nva" ∷ codes "lue\r\n" ∷ []

two-Sends : Sends (taking 4096 ∷ taking 4096 ∷ []) (set_items ∷ get_items ∷ [])
unfolding socket_write make_command turn socket_write_impl to_string
two-Sends = (
  whole (make_command set_items) (taking 4096 ∷ []),
  refl,
  refl,
  refl,
  (whole (make_command get_items) [], refl, refl, refl, tt),
)

sync_set_get-Shows_example :
    Shows
      (started (taking 4096 ∷ taking 4096 ∷ []) two_chunks)
      (sent_set_get (simple (codes "OK")))
      (shown_set_get (simple (codes "OK")) (bulk_string (codes "value")))
      (sync_set_get release
        (λ e. codes "an error")
        connects_at_once
        (started (taking 4096 ∷ taking 4096 ∷ []) two_chunks))
unfolding to_string
sync_set_get-Shows_example =
    sync_set_get-Shows release (λ e. codes "an error") connects_at_once
      (started (taking 4096 ∷ taking 4096 ∷ []) two_chunks)
      (open_session (taking 4096 ∷ taking 4096 ∷ []) two_chunks).client (simple (codes "OK"))
      (bulk_string (codes "value")) [] (connects (taking 4096 ∷ taking 4096 ∷ []) two_chunks) refl
      refl
      (record {
        on = refl;
        idle = record { no_state = refl; no_array = refl };
        chunks = two_chunks;
        to_come = refl;
        chunked = ((omega arith, omega arith), ((omega arith, omega arith), tt));
        stream_is = refl;
      })
      ((omega arith, omega arith), ((omega arith, omega arith), tt)) (omega arith) two-Sends

abbrev seven_replies : List Reply
seven_replies =
    simple (codes "OK")
    ∷ number (pos 1)
    ∷ number (pos 2)
    ∷ number (pos 1)
    ∷ bulk_string (codes "1")
    ∷ number (pos 1)
    ∷ failure (codes "ERR")
    ∷ []

abbrev seven_chunk : List Bytes
seven_chunk = codes "+OK\r\n:1\r\n:2\r\n:1\r\n$1\r\n1\r\n:1\r\n-ERR\r\n" ∷ []

abbrev pipeline_out : Written
pipeline_out = whole (flatten (map make_command example_pipeline)) []

abbrev seven_sends : List SendAttempt
seven_sends = attempts_for seven_replies

pipeline_written :
    socket_write_buffers seven_sends none (map make_command example_pipeline) ≡ some pipeline_out
unfolding socket_write_buffers socket_write make_command turn socket_write_impl to_string
pipeline_written = refl

sync_pipeline-Shows_example :
    Shows
      (started seven_sends seven_chunk)
      pipeline_out.wire
      (record { exit = exit_success; out = map result_line seven_replies; err = [] })
      (sync_pipeline release
        (λ e. codes "an error")
        connects_at_once
        (started seven_sends seven_chunk))
unfolding to_string to_string_int
sync_pipeline-Shows_example =
    sync_pipeline-Shows release (λ e. codes "an error") connects_at_once
      (started seven_sends seven_chunk) (open_session seven_sends seven_chunk).client seven_replies
      [] pipeline_out (connects seven_sends seven_chunk) refl refl refl (omega arith)
      (record {
        on = refl;
        idle = record { no_state = refl; no_array = refl };
        chunks = seven_chunk;
        to_come = refl;
        chunked = ((omega arith, omega arith), tt);
        stream_is = refl;
      })
      pipeline_written refl
