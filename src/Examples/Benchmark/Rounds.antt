-- ===== src/Examples/Benchmark/Rounds.antt =====
-- The rounds of the benchmark against a server that keeps what it is given.
use redisclient_libary.Common.{
  Bytes, Bool, true, false, List, [], ◌∷◌, ◌++◌, ℕ, suc, ◌^◌, ◌%◌, ◌≤◌, length, Option, none, some,
  codes, Build, ◌≡◌, eq_bytes_refl, refl, arith, All,
}
use redisclient_libary.Common.Int.{pos, long_max}
use redisclient_libary.Common.Decimal.{to_string, length-to_string}
use redisclient_libary.Value.{bytes_value, int_value, ne_value}
use redisclient_libary.Parser.Print.{simple, number, bulk_string, print}
use redisclient_libary.Parser.Stream.{printed}
use redisclient_libary.Buffer.{RedisBuffer, text}
use redisclient_libary.Socket.{ErrorCode}
use redisclient_libary.Client.{Ended, returned, ◌>>=◌}
use redisclient_libary.Client.Sync.{OnError, Sync}
use redisclient_libary.Client.Connect.{SystemAnswers, connect_ec}
use redisclient_libary.Examples.Console.{Session, Exit, with_connection}
use redisclient_libary.Examples.Serving.{Sends, IsServed}
use redisclient_libary.Examples.Benchmark.{
  Clock, parsed, run_round, run_rounds, run_benchmark, sync_benchmark,
}
use redisclient_libary.Examples.Benchmark.Statistics.{
  Arrives, IsStats, is_due, ops_requests, ops_replies, next_time, expect_reply-Arrives,
  print_ops-Arrives,
}

abbrev pub key_of : ℕ → Bytes
key_of i = codes "key " ++ to_string (i % 2 ^ 64)

key-IsSendable : (i : ℕ) → length (key_of i) ≤ long_max
key-IsSendable i = omega (arith, length-to_string (i % 2 ^ 64) (omega arith))

text-equal : (b : Bytes) → ne_value (bytes_value b) (bytes_value b) ≡ false
unfolding ne_value
text-equal b = rw (eq_bytes_refl b) refl

one-equal : ne_value (int_value (pos 1)) (int_value (pos 1)) ≡ false
unfolding ne_value
one-equal = refl

-- What a server that keeps what it is given answers in a round, in front of the rest.
abbrev pub round_replies : ℕ → Bool → Bytes → Bytes → Bytes
round_replies i due stats rest =
    print (simple (codes "OK")) (
      print (bulk_string (key_of i))
        (print (number (pos 1)) (printed (ops_replies due stats) rest)))

abbrev pub round_requests : ℕ → Bool → List (List RedisBuffer) → List (List RedisBuffer)
round_requests i due more =
    (text (codes "SET") ∷ text (key_of i) ∷ text (key_of i) ∷ [])
    ∷ (text (codes "GET") ∷ text (key_of i) ∷ [])
    ∷ (text (codes "DEL") ∷ text (key_of i) ∷ [])
    ∷ (ops_requests due ++ more)

module _ ⦃errors : OnError⦄ (build : Build) where
  run_round-Arrives :
      (s : Session) (i : ℕ) (due : Bool) (last : Option ℕ) (clock : Clock) (stats rest : Bytes)
      (more : List (List RedisBuffer))
      → is_due last clock ≡ due
      → IsServed s.client (round_replies i due stats rest)
      → Sends s.client.sends (round_requests i due more)
      → IsStats stats
      → Arrives (some (some (next_time due last clock))) rest more (run_round build i last clock s)
  unfolding run_round
  run_round-Arrives s i due last clock stats rest more e v out h =
      let ops_out = ops_requests due ++ more in
      let ops_in = printed (ops_replies due stats) rest in
      let del_out = (text (codes "DEL") ∷ text (key_of i) ∷ []) ∷ ops_out in
      let del_in = print (number (pos 1)) ops_in in
      let get_out = (text (codes "GET") ∷ text (key_of i) ∷ []) ∷ del_out in
      let get_in = print (bulk_string (key_of i)) del_in in
      let set =
        expect_reply-Arrives build s (codes "SET") (key_of i ∷ key_of i ∷ [])
          (bytes_value (codes "OK")) (simple (codes "OK")) get_in get_out v (omega arith) out
          (text-equal (codes "OK")) in
      let got =
        expect_reply-Arrives build set.session (codes "GET") (key_of i ∷ [])
          (bytes_value (key_of i)) (bulk_string (key_of i)) del_in del_out set.served
          (key-IsSendable i) set.sends (text-equal (key_of i)) in
      let gone =
        expect_reply-Arrives build got.session (codes "DEL") (key_of i ∷ []) (int_value (pos 1))
          (number (pos 1)) ops_in ops_out got.served (omega arith) got.sends one-equal in
      let ops =
        print_ops-Arrives build gone.session due last clock stats rest more e gone.served gone.sends
          h in
      record {
        session = ops.session;
        ends = rw (◌>>=◌, set.ends, got.ends, gone.ends, ops.ends) refl;
        served = ops.served;
        sends = ops.sends;
      }

-- The rounds behind `i`, for the clocks and the texts that the server answers to `info`.
abbrev pub rounds_replies : ℕ → Option ℕ → List (Clock × Bytes) → Bytes → Bytes
rounds_replies i last [] rest = rest
rounds_replies i last ((clock, stats) ∷ more) rest =
    let due = is_due last clock in
    round_replies (suc i) due stats
      (rounds_replies (suc i) (some (next_time due last clock)) more rest)

abbrev pub rounds_requests : ℕ → Option ℕ → List (Clock × Bytes) → List (List RedisBuffer)
rounds_requests i last [] = []
rounds_requests i last ((clock, stats) ∷ more) =
    let due = is_due last clock in
    round_requests (suc i) due (rounds_requests (suc i) (some (next_time due last clock)) more)

abbrev pub clocks_of : List (Clock × Bytes) → List Clock
clocks_of [] = []
clocks_of ((clock, stats) ∷ more) = clock ∷ clocks_of more

-- The loop still runs behind the rounds, and the client is between replies.
record GoesOn (rest : Bytes) (ended : Ended Session (Option (Option ℕ))) : Type 0 where
  pub last : Option ℕ
  pub session : Session
  pub ends : ended ≡ returned (some last) session
  pub served : IsServed session.client rest

run_rounds-GoesOn :
    ⦃errors : OnError⦄ (build : Build) (days : List (Clock × Bytes)) (s : Session) (i : ℕ)
    (last : Option ℕ) (rest : Bytes)
    → IsServed s.client (rounds_replies i last days rest)
    → Sends s.client.sends (rounds_requests i last days)
    → All (λ (clock, stats). IsStats stats) days
    → GoesOn rest (run_rounds build i last (clocks_of days) s)
unfolding run_rounds
run_rounds-GoesOn build [] s i last rest v out h = record {
  last = last;
  session = s;
  ends = refl;
  served = v;
}
run_rounds-GoesOn build ((clock, stats) ∷ days) s i last rest v out (h, hs) =
    let due = is_due last clock in
    let next = some (next_time due last clock) in
    let r =
      run_round-Arrives build s (suc i) due last clock stats (rounds_replies (suc i) next days rest)
        (rounds_requests (suc i) next days) refl v out h in
    let more = run_rounds-GoesOn build days r.session (suc i) next rest r.served r.sends hs in
    record {
      last = more.last;
      session = more.session;
      ends = rw (◌>>=◌, r.ends) more.ends;
      served = more.served;
    }

-- The program still runs, and the client is between replies.
pub record RunsOn (rest : Bytes) (ended : Ended Session (Option Exit)) : Type 0 where
  pub session : Session
  pub ends : ended ≡ returned none session
  pub served : IsServed session.client rest

-- The benchmark against a server that keeps what it is given, when no help is asked for and it has a
-- connection: it ends in no round, however many there are, however the stream is cut and whenever the
-- clock lets it ask for the statistics. It reads exactly the replies to what it sends. The address is
-- taken to be one, the requests to go out, and a number in the statistics to fit an `unsigned long`.
pub sync_benchmark-RunsOn :
    ⦃errors : OnError⦄ (build : Build) (usage : Bytes) (address : Option Bytes) (port : Option ℕ)
    (describe : ErrorCode → Bytes) (answers : SystemAnswers) (days : List (Clock × Bytes))
    (s : Session) (c : Sync) (rest : Bytes)
    → connect_ec true answers s.client ≡ returned tt c
    → c.ec ≡ none
    → IsServed c (rounds_replies 0 none days rest)
    → Sends c.sends (rounds_requests 0 none days)
    → All (λ (clock, stats). IsStats stats) days
    → RunsOn rest (
        sync_benchmark build usage
          (parsed false address port)
          none
          describe
          answers
          (clocks_of days)
          s)
unfolding sync_benchmark run_benchmark with_connection
sync_benchmark-RunsOn build usage address port describe answers days s c rest e clear v out h =
    let r = run_rounds-GoesOn build days (record s { client = c }) 0 none rest v out h in
    rw (◌>>=◌, e, clear)
      (record { session = r.session; ends = rw (◌>>=◌, r.ends) refl; served = r.served })
