-- ===== src/Tests/RoundTests.antt =====
-- sync_benchmark.cpp and sync_timeout.cpp on concrete input.
use redisclient_libary.Common.{
  Bytes, List, [], ◌∷◌, codes, none, some, false, release, ◌≡◌, refl, arith, ◌<◌, ◌^◌,
}
use mathlib.Core.Path.{subst}
use redisclient_libary.Common.Decimal.{to_string, to_string_int, spelled}
use redisclient_libary.Parser.Print.{Reply, failure, bulk_string}
use redisclient_libary.Socket.{SendAttempt, socket_write, turn, socket_write_impl}
use redisclient_libary.Buffer.{text}
use redisclient_libary.Command.{make_command}
use redisclient_libary.Examples.Serving.{Sends}
use redisclient_libary.Examples.SyncPrograms.{sync_timeout}
use redisclient_libary.Examples.SyncPrograms.Polling.{polled, gets, ShowsPolled, sync_timeout-Shows}
use redisclient_libary.Examples.SyncPrograms.Dialogue.{get_items}
use redisclient_libary.Examples.Benchmark.{Clock, parsed, sync_benchmark, regex_search}
use redisclient_libary.Examples.Benchmark.Statistics.{IsStats}
use redisclient_libary.Examples.Benchmark.Rounds.{
  RunsOn, rounds_requests, clocks_of, sync_benchmark-RunsOn,
}
use redisclient_libary.Tests.SocketTests.{taking}
use redisclient_libary.Tests.SyncTests.{silent}
use redisclient_libary.Tests.ProgramTests.{connects_at_once, started, open_session, whole, connects}

abbrev a_day : Clock × Bytes
a_day = (record { initial = 7; now = 8; later = 9 }, codes "instantaneous_ops_per_sec:12\r\n")

abbrev a_chunk : List Bytes
a_chunk = codes "+OK\r\n$5\r\nkey 1\r\n:1\r\n$30\r\ninstantaneous_ops_per_sec:12\r\n\r\n+more" ∷ []

abbrev four_sends : List SendAttempt
four_sends = taking 4096 ∷ taking 4096 ∷ taking 4096 ∷ taking 4096 ∷ []

four-Sends : Sends four_sends (rounds_requests 0 none (a_day ∷ []))
unfolding socket_write make_command turn socket_write_impl to_string
four-Sends = (
  whole (make_command (text (codes "SET") ∷ text (codes "key 1") ∷ text (codes "key 1") ∷ []))
      (taking 4096 ∷ taking 4096 ∷ taking 4096 ∷ []),
  refl,
  refl,
  refl,
  (
    whole (make_command (text (codes "GET") ∷ text (codes "key 1") ∷ []))
        (taking 4096 ∷ taking 4096 ∷ []),
    refl,
    refl,
    refl,
    (
      whole (make_command (text (codes "DEL") ∷ text (codes "key 1") ∷ [])) (taking 4096 ∷ []),
      refl,
      refl,
      refl,
      (
        whole (make_command (text (codes "info") ∷ text (codes "stats") ∷ [])) [],
        refl,
        refl,
        refl,
        tt,
      ),
    ),
  ),
)

a_day-IsStats : IsStats (a_day.1)
unfolding regex_search
a_day-IsStats = record {
  short = omega arith;
  fits = λ digits e.
      let same : codes "12" ≡ digits = cc e in subst (λ d. spelled 0 d < 2 ^ 64) same (omega arith);
}

sync_benchmark-RunsOn_example : RunsOn (codes "+more") (
    sync_benchmark release
      (codes "Options:")
      (parsed false none (some 6380))
      none
      (λ e. codes "an error")
      connects_at_once
      (clocks_of (a_day ∷ []))
      (started four_sends a_chunk))
unfolding to_string to_string_int
sync_benchmark-RunsOn_example =
    sync_benchmark-RunsOn release (codes "Options:") none (some 6380) (λ e. codes "an error")
      connects_at_once (a_day ∷ []) (started four_sends a_chunk)
      (open_session four_sends a_chunk).client (codes "+more") (connects four_sends a_chunk) refl
      (record {
        on = refl;
        idle = record { no_state = refl; no_array = refl };
        chunks = a_chunk;
        to_come = refl;
        chunked = ((omega arith, omega arith), tt);
        stream_is = refl;
      })
      four-Sends (a_day-IsStats, tt)

abbrev two_replies : List Reply
two_replies = bulk_string (codes "value") ∷ failure (codes "ERR") ∷ []

abbrev polled_chunks : List Bytes
polled_chunks = codes "$5\r\nval" ∷ codes "ue\r\n-ERR\r\n+" ∷ []

abbrev two_sends : List SendAttempt
two_sends = taking 4096 ∷ taking 4096 ∷ []

gets-Sends : Sends two_sends (gets two_replies)
unfolding socket_write make_command turn socket_write_impl to_string
gets-Sends = (
  whole (make_command get_items) (taking 4096 ∷ []),
  refl,
  refl,
  refl,
  (whole (make_command get_items) [], refl, refl, refl, tt),
)

sync_timeout-Shows_example : ShowsPolled (started two_sends polled_chunks) (polled two_replies) (
    sync_timeout release
      (λ e. codes "an error")
      connects_at_once
      2
      (started two_sends polled_chunks))
unfolding to_string
sync_timeout-Shows_example =
    sync_timeout-Shows release (λ e. codes "an error") connects_at_once
      (started two_sends polled_chunks) (open_session two_sends polled_chunks).client two_replies
      (codes "+") (connects two_sends polled_chunks) refl
      (record {
        on = refl;
        idle = record { no_state = refl; no_array = refl };
        chunks = polled_chunks;
        to_come = refl;
        chunked = ((omega arith, omega arith), ((omega arith, omega arith), tt));
        stream_is = refl;
      })
      (omega arith, ((omega arith, omega arith), tt)) gets-Sends
