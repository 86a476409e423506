-- ===== src/Examples/SyncPrograms/Dialogue.antt =====
-- sync_set_get.cpp and sync_pipeline.cpp against a server that prints a reply to each request.
use redisclient_libary.Common.{
  Bytes, true, List, [], ◌∷◌, ◌++◌, none, Build, ◌≡◌, refl, ap, ◌∙◌, sym, codes, append_assoc,
  append-nil,
}
use redisclient_libary.Parser.Print.{
  Reply, simple, failure, number, nil_bulk, bulk_string, IsSendable, print, meaning,
}
use redisclient_libary.Buffer.{RedisBuffer, text}
use redisclient_libary.Command.{make_command}
use redisclient_libary.Socket.{ErrorCode}
use redisclient_libary.Client.{Ended, returned, ◌>>=◌}
use redisclient_libary.Client.Sync.{OnError, Sync}
use redisclient_libary.Client.Connect.{SystemAnswers, connect_ec}
use redisclient_libary.Client.SyncApi.{command}
use redisclient_libary.Examples.Console.{Session, Exit, exit_success, exit_failure, with_connection}
use redisclient_libary.Examples.Serving.{Sends, IsServed, command-Served}
use redisclient_libary.Examples.SyncPrograms.{get_key, set_get, sync_set_get}

abbrev pub set_items : List RedisBuffer
set_items = text (codes "SET") ∷ text (codes "key") ∷ text (codes "value") ∷ []

abbrev pub get_items : List RedisBuffer
get_items = text (codes "GET") ∷ text (codes "key") ∷ []

-- The lines that a program writes, and how it ends.
pub record Shown : Type 0 where
  pub exit : Exit
  pub out : List Bytes
  pub err : List Bytes

-- What the user sees of a reply to the second command.
abbrev pub shown_get : Reply → Shown
shown_get (failure s) = record {
  exit = exit_failure;
  out = [];
  err = (codes "GET error: " ++ s) ∷ [];
}
shown_get (simple s) = record { exit = exit_success; out = (codes "GET: " ++ s) ∷ []; err = [] }
shown_get (bulk_string s) = record {
  exit = exit_success;
  out = (codes "GET: " ++ s) ∷ [];
  err = [];
}
shown_get (number _) = record { exit = exit_success; out = codes "GET: " ∷ []; err = [] }
shown_get nil_bulk = record { exit = exit_success; out = codes "GET: " ∷ []; err = [] }

-- The program ends like this, having sent these bytes.
pub record Shows (s : Session) (sent : Bytes) (shown : Shown) (ended : Ended Session Exit)
    : Type 0 where
  pub session : Session
  pub ends : ended ≡ returned shown.exit session
  pub out : session.out ≡ s.out ++ shown.out
  pub err : session.err ≡ s.err ++ shown.err
  pub wire : session.client.wire ≡ s.client.wire ++ sent

-- What the user sees of both replies, and the requests that are sent.
abbrev pub shown_set_get : Reply → Reply → Shown
shown_set_get (failure x) r = record {
  exit = exit_failure;
  out = [];
  err = (codes "SET error: " ++ x) ∷ [];
}
shown_set_get _ r = shown_get r

abbrev pub sent_set_get : Reply → Bytes
sent_set_get (failure x) = make_command set_items
sent_set_get _ = make_command set_items ++ make_command get_items

saying : Session → Sync → Bytes → Session
saying s c line = record s { client = c; out = s.out ++ line ∷ [] }

complaining : Session → Sync → Bytes → Session
complaining s c line = record s { client = c; err = s.err ++ line ∷ [] }

said-Shows :
    (s : Session) (c : Sync) (request line : Bytes)
    → c.wire ≡ s.client.wire ++ request
    → Shows s request
        (record { exit = exit_success; out = line ∷ []; err = [] })
        (returned exit_success (saying s c line))
unfolding saying
said-Shows s c request line w = record {
  session = saying s c line;
  ends = refl;
  out = refl;
  err = sym (append-nil s.err);
  wire = w;
}

complained-Shows :
    (s : Session) (c : Sync) (request line : Bytes)
    → c.wire ≡ s.client.wire ++ request
    → Shows s request
        (record { exit = exit_failure; out = []; err = line ∷ [] })
        (returned exit_failure (complaining s c line))
unfolding complaining
complained-Shows s c request line w = record {
  session = complaining s c line;
  ends = refl;
  out = sym (append-nil s.out);
  err = refl;
  wire = w;
}

module _ ⦃errors : OnError⦄ (build : Build) where
  got-Shows :
      (s : Session) (r : Reply) (c : Sync) (request : Bytes)
      → command build (codes "GET") (text (codes "key") ∷ []) s.client ≡ returned (meaning r) c
      → c.wire ≡ s.client.wire ++ request
      → Shows s request (shown_get r) (get_key build s)
  unfolding get_key saying complaining
  got-Shows s (failure x) c request e w =
      rw (◌>>=◌, e) (complained-Shows s c request (codes "GET error: " ++ x) w)
  got-Shows s (simple x) c request e w =
      rw (◌>>=◌, e) (said-Shows s c request (codes "GET: " ++ x) w)
  got-Shows s (bulk_string x) c request e w =
      rw (◌>>=◌, e) (said-Shows s c request (codes "GET: " ++ x) w)
  got-Shows s (number i) c request e w = rw (◌>>=◌, e) (said-Shows s c request (codes "GET: ") w)
  got-Shows s nil_bulk c request e w = rw (◌>>=◌, e) (said-Shows s c request (codes "GET: ") w)

  -- The first command went well, and the second is run.
  set-Shows :
      (s : Session) (r : Reply) (c d : Sync)
      → set_get build s ≡ get_key build (record s { client = c })
      → c.wire ≡ s.client.wire ++ make_command set_items
      → command build (codes "GET") (text (codes "key") ∷ []) c ≡ returned (meaning r) d
      → d.wire ≡ c.wire ++ make_command get_items
      → Shows s (make_command set_items ++ make_command get_items) (shown_get r) (set_get build s)
  set-Shows s r c d e w f u =
      let i = got-Shows (record s { client = c }) r d (make_command get_items) f u in
      record {
        session = i.session;
        ends = e ∙ i.ends;
        out = i.out;
        err = i.err;
        wire =
            i.wire
            ∙ ap (λ x. x ++ make_command get_items) w
            ∙ append_assoc s.client.wire (make_command set_items) (make_command get_items);
      }

  -- By the first reply.
  first-Shows :
      (s : Session) (r r' : Reply) (c d : Sync)
      → command build (codes "SET") (text (codes "key") ∷ text (codes "value") ∷ []) s.client
        ≡ returned (meaning r) c
      → c.wire ≡ s.client.wire ++ make_command set_items
      → command build (codes "GET") (text (codes "key") ∷ []) c ≡ returned (meaning r') d
      → d.wire ≡ c.wire ++ make_command get_items
      → Shows s (sent_set_get r) (shown_set_get r r') (set_get build s)
  unfolding set_get complaining
  first-Shows s (failure x) r' c d e w f u =
      rw (◌>>=◌, e) (complained-Shows s c (make_command set_items) (codes "SET error: " ++ x) w)
  first-Shows s (simple x) r' c d e w f u = set-Shows s r' c d (rw (◌>>=◌, e) refl) w f u
  first-Shows s (bulk_string x) r' c d e w f u = set-Shows s r' c d (rw (◌>>=◌, e) refl) w f u
  first-Shows s (number x) r' c d e w f u = set-Shows s r' c d (rw (◌>>=◌, e) refl) w f u
  first-Shows s nil_bulk r' c d e w f u = set-Shows s r' c d (rw (◌>>=◌, e) refl) w f u

  set_get-Shows :
      (s : Session) (r r' : Reply) (rest : Bytes)
      → IsServed s.client (print r (print r' rest))
      → IsSendable r
      → IsSendable r'
      → Sends s.client.sends (set_items ∷ get_items ∷ [])
      → Shows s (sent_set_get r) (shown_set_get r r') (set_get build s)
  set_get-Shows s r r' rest v h h' out =
      let a =
        command-Served build s.client (codes "SET") (text (codes "key") ∷ text (codes "value") ∷ [])
          r (print r' rest) (get_items ∷ []) v h out in
      let b =
        command-Served build a.client (codes "GET") (text (codes "key") ∷ []) r' rest [] a.served h'
          a.sends in
      first-Shows s r r' a.client b.client a.answer a.wire b.answer b.wire

-- `main` against a server that prints a reply that is no array to each of the two requests, when
-- the client gets a connection, for which it writes nothing, and the requests go out: the program
-- says what the second reply is and ends well, or what went wrong, and then it fails. The second
-- request is sent only if the first reply is no error; the server gets the requests in their order
-- and no other byte. The replies, errors among them, are lines of printable ASCII, integers other
-- than LONG_MIN, nil, and payloads of any bytes.
pub sync_set_get-Shows :
    ⦃errors : OnError⦄ (build : Build) (describe : ErrorCode → Bytes) (answers : SystemAnswers)
    (s : Session) (c : Sync) (r r' : Reply) (rest : Bytes)
    → connect_ec true answers s.client ≡ returned tt c
    → c.ec ≡ none
    → c.wire ≡ s.client.wire
    → IsServed c (print r (print r' rest))
    → IsSendable r
    → IsSendable r'
    → Sends c.sends (set_items ∷ get_items ∷ [])
    → Shows s (sent_set_get r) (shown_set_get r r') (sync_set_get build describe answers s)
unfolding sync_set_get with_connection
sync_set_get-Shows build describe answers s c r r' rest e clear w v h h' out =
    let i = set_get-Shows build (record s { client = c }) r r' rest v h h' out in
    rw (◌>>=◌, e, clear)
      (record {
        session = i.session;
        ends = i.ends;
        out = i.out;
        err = i.err;
        wire = i.wire ∙ ap (λ x. x ++ sent_set_get r) w;
      })
