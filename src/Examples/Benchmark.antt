-- ===== src/Examples/Benchmark.antt =====
-- examples/sync_benchmark.cpp. What `time(0)` answers is an argument.
pub mod Statistics
pub mod Rounds
use redisclient_libary.Common.{
  Bytes, Bool, true, false, List, [], ◌∷◌, ◌++◌, ℕ, zero, suc, ◌+◌, ◌^◌, ◌%◌, Option, none, some,
  codes, Build, if◌then◌else◌, leb, ltb, ◌==◌, ◌&&◌, map,
}
use redisclient_libary.Common.Int.{pos}
use redisclient_libary.Common.Decimal.{to_string, spelled}
use redisclient_libary.Value.{RedisValue, bytes_value, int_value, ne_value, to_text}
use redisclient_libary.Buffer.{text}
use redisclient_libary.Client.{thrown, runtime_error, system_error, ◌>>=◌, ◌>>◌, return}
use redisclient_libary.Client.Sync.{OnError}
use redisclient_libary.Socket.{ErrorCode}
use redisclient_libary.Client.Connect.{SystemAnswers}
use redisclient_libary.Client.SyncApi.{command}
use redisclient_libary.Examples.Console.{
  Exit, exit_success, exit_failure, exit_minus_one, aborted, Program, on_client, say, complain,
  with_connection,
}

-- The decimal digits at the front.
abbrev pub leading_digits : Bytes → Bytes
leading_digits [] = []
leading_digits (c ∷ cs) = if leb b'0' c && leb c b'9' then c ∷ leading_digits cs else []

-- What is behind a prefix.
abbrev pub behind_prefix : Bytes → Bytes → Option Bytes
behind_prefix [] cs = some cs
behind_prefix (p ∷ ps) [] = none
behind_prefix (p ∷ ps) (c ∷ cs) = if p == c then behind_prefix ps cs else none

abbrev pub ops_label : Bytes
ops_label = codes "instantaneous_ops_per_sec:"

-- `regex_search` for `instantaneous_ops_per_sec:(\d+)`: the digits of the first match.
unfoldable pub regex_search : Bytes → Option Bytes
regex_search [] = none
regex_search (c ∷ cs) =
    let later = regex_search cs in
    elim (behind_prefix ops_label (c ∷ cs)) [
      | none ↦ later
      | some rest ↦ elim (leading_digits rest) [ [] ↦ later | d ∷ ds ↦ some (d ∷ ds) ]
    ]

-- What `time(0)` answers in a round: to initialise `lastTime`, to be compared with it, and to be stored.
pub record Clock : Type 0 where
  pub initial : ℕ
  pub now : ℕ
  pub later : ℕ

-- `lastTime`, which the first call initialises.
abbrev pub last_time : Option ℕ → Clock → ℕ
last_time none clock = clock.initial
last_time (some t) clock = t

-- `stoul`, whose exception is `std::out_of_range`.
unfoldable pub say_ops : Bytes → Program Unit
say_ops digits =
    if ltb (spelled 0 digits) (2 ^ 64)
    then say (codes "redis server ops: " ++ to_string (spelled 0 digits))
    else λ s. thrown (runtime_error (codes "stoul")) s

pub record Config : Type 0 where
  pub address : Bytes
  pub port : ℕ

-- What boost::program_options finds in the command line: the text of its error, or whether help is asked
-- for, and the address and the port that are given.
pub data CommandLine : Type 0 where
  malformed : Bytes → CommandLine
  parsed : Bool → Option Bytes → Option ℕ → CommandLine

-- The default values of the options.
abbrev pub default_address : Bytes
default_address = codes "127.0.0.1"

abbrev pub default_port : ℕ
default_port = 6379

abbrev pub given_or : {A : Type 0} → A → Option A → A
given_or value none = value
given_or value (some given) = given

abbrev pub config_of : Option Bytes → Option ℕ → Config
config_of address port = record {
  address = given_or default_address address;
  port = given_or default_port port;
}

abbrev pub cannot_connect : Config → Bytes
cannot_connect config =
    codes "Can't connect to " ++ config.address ++ codes ":" ++ to_string config.port ++ codes ": "

module _ ⦃errors : OnError⦄ (build : Build) where
  -- `printOPS`: what `lastTime` is behind it.
  unfoldable pub print_ops : Option ℕ → Clock → Program (Option ℕ)
  unfolding regex_search say_ops to_text
  print_ops last clock =
      if leb (last_time last clock + 1) clock.now
      then (on_client (command build (codes "info") (text (codes "stats") ∷ [])) >>= λ stats.
          elim (regex_search (to_text stats)) [
            | none ↦ return (some clock.later)
            | some digits ↦ say_ops digits >> return (some clock.later)
          ])
      else return (some (last_time last clock))

  -- `if (command(...) != expected) abort();`
  unfoldable pub expect_reply : Bytes → List Bytes → RedisValue → Program Bool
  unfolding ne_value
  expect_reply cmd args expected = on_client (command build cmd (map text args)) >>= λ v.
      return (if ne_value v expected then false else true)

  -- A round of `for(;;)`: what `lastTime` is behind it, or none if the program is aborted.
  unfoldable pub run_round : ℕ → Option ℕ → Clock → Program (Option (Option ℕ))
  unfolding expect_reply print_ops
  run_round i last clock =
      let key = codes "key " ++ to_string (i % 2 ^ 64) in
      expect_reply (codes "SET") (key ∷ key ∷ []) (bytes_value (codes "OK")) >>= λ set.
      if set
      then (expect_reply (codes "GET") (key ∷ []) (bytes_value key) >>= λ got.
          if got
          then (expect_reply (codes "DEL") (key ∷ []) (int_value (pos 1)) >>= λ gone.
              if gone then (print_ops last clock >>= λ l. return (some l)) else return none)
          else return none)
      else return none

  -- The rounds that the clocks are given for, from the one behind `i` on.
  unfoldable pub run_rounds : ℕ → Option ℕ → List Clock → Program (Option (Option ℕ))
  unfolding run_round
  run_rounds i last [] = return (some last)
  run_rounds i last (clock ∷ clocks) = run_round (suc i) last clock >>= λ ended. elim ended [
    | none ↦ return none
    | some l ↦ run_rounds (suc i) l clocks
  ]

  -- `Benchmark::run`: none if the loop still runs behind the rounds. What `from_string` says of the
  -- address is an argument, none if it is one.
  unfoldable pub run_benchmark :
      Config
      → Option ErrorCode
      → (ErrorCode → Bytes)
      → SystemAnswers
      → List Clock
      → Program (Option Exit)
  unfolding with_connection run_rounds
  run_benchmark config (some e) describe answers clocks s = thrown (system_error e) s
  run_benchmark config none describe answers clocks s =
      with_connection (cannot_connect config) (some exit_minus_one) describe answers
        (run_rounds 0 none clocks >>= λ ended.
          return (elim ended [ none ↦ some aborted | some last ↦ none ]))
        s

  -- `main`. The text of the options is an argument.
  unfoldable pub sync_benchmark :
      Bytes
      → CommandLine
      → Option ErrorCode
      → (ErrorCode → Bytes)
      → SystemAnswers
      → List Clock
      → Program (Option Exit)
  unfolding run_benchmark
  sync_benchmark usage (malformed note) invalid describe answers clocks =
      complain note >> return (some exit_failure)
  sync_benchmark usage (parsed true address port) invalid describe answers clocks =
      say usage >> return (some exit_success)
  sync_benchmark usage (parsed false address port) invalid describe answers clocks =
      run_benchmark (config_of address port) invalid describe answers clocks
