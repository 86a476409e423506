-- ===== src/Examples/Benchmark/Statistics.antt =====
-- `printOPS` of the benchmark, and its single commands, against a server that answers.
use redisclient_libary.Common.{
  Bytes, Bool, true, false, List, [], ◌∷◌, ◌++◌, ℕ, ◌+◌, ◌^◌, ◌<◌, ◌≤◌, length, map, Option, none,
  some, codes, Build, if◌then◌else◌, leb, ltb, ◌≡◌, refl, arith,
}
use redisclient_libary.Common.Int.{long_max}
use redisclient_libary.Common.Decimal.{to_string, spelled}
use redisclient_libary.Value.{RedisValue, ne_value}
use redisclient_libary.Parser.Print.{Reply, bulk_string, IsSendable, print, meaning}
use redisclient_libary.Parser.Stream.{printed}
use redisclient_libary.Buffer.{RedisBuffer, text}
use redisclient_libary.Client.{Ended, returned, ◌>>=◌, ◌>>◌}
use redisclient_libary.Client.Sync.{OnError}
use redisclient_libary.Examples.Console.{Session}
use redisclient_libary.Examples.Serving.{Sends, IsServed, Served, command-Served}
use redisclient_libary.Examples.Benchmark.{
  Clock, last_time, regex_search, say_ops, print_ops, expect_reply,
}

-- A program ends with this value, between replies, with this stream and these requests ahead.
pub record Arrives {A : Type 0} (x : A) (stream : Bytes) (requests : List (List RedisBuffer))
    (ended : Ended Session A) : Type 0 where
  pub session : Session
  pub ends : ended ≡ returned x session
  pub served : IsServed session.client stream
  pub sends : Sends session.client.sends requests

-- What the server answers to `info`: the text's number, if it has one, fits an `unsigned long`.
pub record IsStats (stats : Bytes) : Type 0 where
  pub short : length stats ≤ long_max
  pub fits : (digits : Bytes) → regex_search stats ≡ some digits → spelled 0 digits < 2 ^ 64

-- A second has gone by.
abbrev pub is_due : Option ℕ → Clock → Bool
is_due last clock = leb (last_time last clock + 1) clock.now

-- The requests and the replies of `printOPS`, and `lastTime` behind it.
abbrev pub ops_requests : Bool → List (List RedisBuffer)
ops_requests due = if due then (text (codes "info") ∷ text (codes "stats") ∷ []) ∷ [] else []

abbrev pub ops_replies : Bool → Bytes → List Reply
ops_replies due stats = if due then bulk_string stats ∷ [] else []

abbrev pub next_time : Bool → Option ℕ → Clock → ℕ
next_time due last clock = if due then clock.later else last_time last clock

module _ ⦃errors : OnError⦄ (build : Build) where
  pub expect_reply-Arrives :
      (s : Session) (cmd : Bytes) (args : List Bytes) (expected : RedisValue) (r : Reply)
      (rest : Bytes) (more : List (List RedisBuffer))
      → IsServed s.client (print r rest)
      → IsSendable r
      → Sends s.client.sends ((text cmd ∷ map text args) ∷ more)
      → ne_value (meaning r) expected ≡ false
      → Arrives true rest more (expect_reply build cmd args expected s)
  unfolding expect_reply
  expect_reply-Arrives s cmd args expected r rest more v h out e =
      let d = command-Served build s.client cmd (map text args) r rest more v h out in
      record {
        session = record s { client = d.client };
        ends = rw (◌>>=◌, d.answer, e) refl;
        served = d.served;
        sends = d.sends;
      }

  say_ops-returned :
      (digits : Bytes) (s : Session)
      → spelled 0 digits < 2 ^ 64
      → say_ops digits s
        ≡ returned tt (record s {
          out = s.out ++ (codes "redis server ops: " ++ to_string (spelled 0 digits)) ∷ [];
        })
  unfolding say_ops
  say_ops-returned digits s h =
      let e : ltb (spelled 0 digits) (2 ^ 64) ≡ true = ground (arith, h) in rw e refl

  -- The text of the server, with the digits that are found in it.
  stats-Arrives :
      (s : Session) (last : Option ℕ) (clock : Clock) (stats rest : Bytes)
      (more : List (List RedisBuffer)) (found : Option Bytes)
      → is_due last clock ≡ true
      → regex_search stats ≡ found
      → Served build s.client
          (codes "info")
          (text (codes "stats") ∷ [])
          (bulk_string stats)
          rest
          more
      → IsStats stats
      → Arrives (some clock.later) rest more (print_ops build last clock s)
  unfolding print_ops
  stats-Arrives s last clock stats rest more none due f d h = record {
    session = record s { client = d.client };
    ends = rw (due, ◌>>=◌, d.answer, f) refl;
    served = d.served;
    sends = d.sends;
  }
  stats-Arrives s last clock stats rest more (some digits) due f d h = record {
    session = record s {
      client = d.client;
      out = s.out ++ (codes "redis server ops: " ++ to_string (spelled 0 digits)) ∷ [];
    };
    ends =
        rw
          (
            due,
            ◌>>=◌,
            d.answer,
            f,
            ◌>>◌,
            ◌>>=◌,
            say_ops-returned digits (record s { client = d.client }) (h.fits digits f),
          )
          refl;
    served = d.served;
    sends = d.sends;
  }

  pub print_ops-Arrives :
      (s : Session) (due : Bool) (last : Option ℕ) (clock : Clock) (stats rest : Bytes)
      (more : List (List RedisBuffer))
      → is_due last clock ≡ due
      → IsServed s.client (printed (ops_replies due stats) rest)
      → Sends s.client.sends (ops_requests due ++ more)
      → IsStats stats
      → Arrives (some (next_time due last clock)) rest more (print_ops build last clock s)
  unfolding print_ops
  print_ops-Arrives s false last clock stats rest more e v out h = record {
    session = s;
    ends = rw e refl;
    served = v;
    sends = out;
  }
  print_ops-Arrives s true last clock stats rest more e v out h =
      stats-Arrives s last clock stats rest more (regex_search stats) e refl
        (command-Served build s.client (codes "info") (text (codes "stats") ∷ [])
          (bulk_string stats) rest more v h.short out)
        h
