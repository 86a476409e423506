-- ===== src/Examples/SyncPrograms/Polling.antt =====
-- sync_timeout.cpp against a server that prints a reply to each request.
use redisclient_libary.Common.{
  Bytes, List, [], ◌∷◌, ◌++◌, suc, length, All, Option, none, some, Build, ◌≡◌, refl, ◌∙◌, sym,
  codes, append_assoc, append-nil, true,
}
use redisclient_libary.Parser.Print.{
  Reply, simple, failure, number, nil_bulk, bulk_string, IsSendable, meaning,
}
use redisclient_libary.Parser.Stream.{printed}
use redisclient_libary.Buffer.{RedisBuffer, text}
use redisclient_libary.Socket.{ErrorCode}
use redisclient_libary.Client.{Ended, returned, ◌>>=◌}
use redisclient_libary.Client.Sync.{OnError, Sync}
use redisclient_libary.Client.Connect.{SystemAnswers, connect_ec}
use redisclient_libary.Client.SyncApi.{command_ec}
use redisclient_libary.Examples.Console.{Session, Exit, exit_failure, with_connection}
use redisclient_libary.Examples.Serving.{Sends, IsServed, command_ec-Served}
use redisclient_libary.Examples.SyncPrograms.{timeout_round, timeout_rounds, sync_timeout}
use redisclient_libary.Examples.SyncPrograms.Dialogue.{get_items}

-- How the program ends, if it does, and what it writes, for the replies that come.
pub record Polled : Type 0 where
  pub exit : Option Exit
  pub out : List Bytes
  pub err : List Bytes

abbrev pub line_before : Bytes → Polled → Polled
line_before line p = record p { out = (codes "GET: " ++ line) ∷ p.out }

abbrev pub polled : List Reply → Polled
polled [] = record { exit = none; out = []; err = [] }
polled (failure s ∷ rs) = record {
  exit = some exit_failure;
  out = [];
  err = (codes "GET error: " ++ s) ∷ [];
}
polled (simple s ∷ rs) = line_before s (polled rs)
polled (bulk_string s ∷ rs) = line_before s (polled rs)
polled (number i ∷ rs) = line_before [] (polled rs)
polled (nil_bulk ∷ rs) = line_before [] (polled rs)

abbrev pub gets : List Reply → List (List RedisBuffer)
gets [] = []
gets (r ∷ rs) = get_items ∷ gets rs

pub record ShowsPolled (s : Session) (p : Polled) (ended : Ended Session (Option Exit))
    : Type 0 where
  pub session : Session
  pub ends : ended ≡ returned p.exit session
  pub out : session.out ≡ s.out ++ p.out
  pub err : session.err ≡ s.err ++ p.err

abbrev said : Session → Sync → Bytes → Session
said s c line = record s { client = c; out = s.out ++ (codes "GET: " ++ line) ∷ [] }

line-ShowsPolled :
    (s : Session) (c : Sync) (line : Bytes) (p : Polled) (ended : Ended Session (Option Exit))
    → ShowsPolled (said s c line) p ended
    → ShowsPolled s (line_before line p) ended
line-ShowsPolled s c line p ended i = record {
  session = i.session;
  ends = i.ends;
  out = i.out ∙ append_assoc s.out ((codes "GET: " ++ line) ∷ []) p.out;
  err = i.err;
}

module _ ⦃errors : OnError⦄ (build : Build) (describe : ErrorCode → Bytes) where
  by_reply :
      (r : Reply) (rs : List Reply) (s : Session) (c : Sync)
      → command_ec build (codes "GET") (text (codes "key") ∷ []) s.client ≡ returned (meaning r) c
      → c.ec ≡ none
      → ((line : Bytes)
          → ShowsPolled
              (said s c line)
              (polled rs)
              (timeout_rounds build describe (length rs) (said s c line)))
      → ShowsPolled s (polled (r ∷ rs)) (timeout_rounds build describe (suc (length rs)) s)
  unfolding timeout_rounds timeout_round
  by_reply (failure x) rs s c e clear more =
      rw (◌>>=◌, e, clear)
        (record {
          session = record s { client = c; err = s.err ++ (codes "GET error: " ++ x) ∷ [] };
          ends = refl;
          out = sym (append-nil s.out);
          err = refl;
        })
  by_reply (simple x) rs s c e clear more =
      rw (◌>>=◌, e, clear) (line-ShowsPolled s c x (polled rs) _ (more x))
  by_reply (bulk_string x) rs s c e clear more =
      rw (◌>>=◌, e, clear) (line-ShowsPolled s c x (polled rs) _ (more x))
  by_reply (number x) rs s c e clear more =
      rw (◌>>=◌, e, clear) (line-ShowsPolled s c [] (polled rs) _ (more []))
  by_reply nil_bulk rs s c e clear more =
      rw (◌>>=◌, e, clear) (line-ShowsPolled s c [] (polled rs) _ (more []))

  timeout_rounds-Shows :
      (rs : List Reply) (s : Session) (rest : Bytes)
      → s.client.ec ≡ none
      → IsServed s.client (printed rs rest)
      → All IsSendable rs
      → Sends s.client.sends (gets rs)
      → ShowsPolled s (polled rs) (timeout_rounds build describe (length rs) s)
  unfolding timeout_rounds
  timeout_rounds-Shows [] s rest none_left v h out = record {
    session = s;
    ends = refl;
    out = sym (append-nil s.out);
    err = sym (append-nil s.err);
  }
  timeout_rounds-Shows (r ∷ rs) s rest none_left v (h, hs) out =
      let d =
        command_ec-Served build s.client (codes "GET") (text (codes "key") ∷ []) r (printed rs rest)
          (gets rs) none_left v h out in
      by_reply r rs s d.client d.answer d.clear
        λ line. timeout_rounds-Shows rs (said s d.client line) rest d.clear d.served hs d.sends

-- The program with a connection, against a server that prints a reply to each of its requests: as
-- many rounds as there are replies write a line for each, in their order, up to the first error
-- reply, which ends the program with exit_failure and a line on the error output. With no error
-- reply the loop still runs behind them, and has written nothing else. The replies are taken to be
-- sendable and the requests to go out.
pub sync_timeout-Shows :
    ⦃errors : OnError⦄ (build : Build) (describe : ErrorCode → Bytes) (answers : SystemAnswers)
    (s : Session) (c : Sync) (rs : List Reply) (rest : Bytes)
    → connect_ec true answers s.client ≡ returned tt c
    → c.ec ≡ none
    → IsServed c (printed rs rest)
    → All IsSendable rs
    → Sends c.sends (gets rs)
    → ShowsPolled s (polled rs) (sync_timeout build describe answers (length rs) s)
unfolding sync_timeout with_connection
sync_timeout-Shows build describe answers s c rs rest e clear v hs out =
    let i = timeout_rounds-Shows build describe rs (record s { client = c }) rest clear v hs out in
    rw (◌>>=◌, e, clear) (record { session = i.session; ends = i.ends; out = i.out; err = i.err })
