-- ===== src/Client/AsyncApi/Commands.antt =====
-- Commands from the call to the bytes that a server reads.
use mathlib.Core.Path.{subst}
use redisclient_libary.Common.{
  Bytes, List, [], ◌∷◌, ◌++◌, append_assoc, append-nil, flatten, map, ℕ, zero, suc, length,
  length-map, Option, some, Build, debug, release, ◌≡◌, refl, ap, ◌∙◌, sym,
}
use redisclient_libary.Buffer.{RedisBuffer, text, content}
use redisclient_libary.Command.{make_command}
use redisclient_libary.Command.Decode.{read_requests}
use redisclient_libary.Command.RoundTrip.{requests, read_requests-requests}
use redisclient_libary.Socket.{ErrorCode}
use redisclient_libary.Client.{connected, Ended, returned, ◌>>=◌, ◌>>◌, return}
use redisclient_libary.Client.Async.{OnError, Async, Run, Calls, Argument, Task, command_task, post}
use redisclient_libary.Client.Async.Loops.{async_write, do_async_command}
use redisclient_libary.Client.Async.Answers.{IsPosting}
use redisclient_libary.Client.Async.Writes.{
  flatten-append, outstanding, Orderly, Orderly-queue, with_data,
}
use redisclient_libary.Client.AsyncApi.{statement_valid, post_command, command, run_task}

-- A call of `command`.
pub record Issued (H : Type 0) : Type 0 where
  pub cmd : Bytes
  pub args : List RedisBuffer
  pub handler : H

module _ {H : Type 0} ⦃errors : OnError H⦄ where
  abbrev pub items : Issued H → List RedisBuffer
  items i = text i.cmd ∷ i.args

  abbrev pub task : Issued H → Task H
  task i = command_task (make_command (items i)) i.handler

  abbrev bytes : Issued H → Bytes
  bytes i = make_command (items i)

  abbrev pub issue : Build → List (Issued H) → Run H Unit
  issue build [] = return tt
  issue build (i ∷ is) = command build i.cmd i.args i.handler >> issue build is

  -- The strand runs a number of tasks.
  abbrev pub drain : (Option ErrorCode → Bytes) → Calls H → ℕ → Run H Unit
  drain describe call zero = return tt
  drain describe call (suc n) = run_task describe call >> drain describe call n

  pub command-connected :
      (build : Build) (i : Issued H) (c : Async H) (tasks : List (Task H))
      → command build i.cmd i.args i.handler (record c { state = connected; tasks = tasks })
        ≡ returned tt (record c { state = connected; tasks = tasks ++ task i ∷ [] })
  unfolding command post_command statement_valid post
  command-connected debug i c tasks = refl
  command-connected release i c tasks = refl

  issue-connected :
      (build : Build) (is : List (Issued H)) (c : Async H) (tasks : List (Task H))
      → issue build is (record c { state = connected; tasks = tasks })
        ≡ returned tt (record c { state = connected; tasks = tasks ++ map task is })
  issue-connected build [] c tasks =
      ap (λ x. returned tt (record c { state = connected; tasks = x })) (sym (append-nil tasks))
  issue-connected build (i ∷ is) c tasks =
      rw (◌>>◌, ◌>>=◌, command-connected build i c tasks)
        (issue-connected build is c (tasks ++ task i ∷ [])
          ∙ ap (λ x. returned tt (record c { state = connected; tasks = x }))
              (append_assoc tasks (task i ∷ []) (map task is)))

  -- Handlers that give commands to the client.
  pub issue-IsPosting :
      (build : Build) (script : H → Argument → List (Issued H))
      → IsPosting (λ h x. issue build (script h x)) (λ h x. map task (script h x)) (λ h x. [])
  issue-IsPosting build script h x c =
      issue-connected build (script h x) c c.tasks
      ∙ ap
          (λ m.
            returned tt
              (record c { state = connected; tasks = c.tasks ++ map task (script h x); marks = m }))
          (sym (append-nil c.marks))

  module _ (describe : Option ErrorCode → Bytes) (call : Calls H) (c : Async H) where
    command_returns :
        (d : Async H) (b : Bytes) (h : H) (w q : List Bytes)
        → (e : Async H) × (do_async_command describe b h (with_data d w q) ≡ returned tt e)
          × (e.tasks ≡ d.tasks)
    unfolding do_async_command async_write
    command_returns d b h [] [] = (_, refl, refl)
    command_returns d b h [] (x ∷ q) = (_, refl, refl)
    command_returns d b h (y ∷ w) q = (_, refl, refl)

    run_task-command :
        (d : Async H) (b : Bytes) (h : H) (rest : List (Task H))
        → d.tasks ≡ command_task b h ∷ rest
        → run_task describe call d ≡ do_async_command describe b h (record d { tasks = rest })
    unfolding run_task
    run_task-command d b h rest e = rw e refl

    Orderly-path :
        {sent sent' : List Bytes} {hs hs' : List H} (d : Async H)
        → sent ≡ sent'
        → hs ≡ hs'
        → Orderly c sent hs d
        → Orderly c sent' hs' d
    Orderly-path {sent'} {hs} d e f o =
        subst (λ x. Orderly c sent' x d) f (subst (λ x. Orderly c x hs d) e o)

    -- All tasks were run, and the client has the requests of the commands behind those of before.
    record Drained (sent : List Bytes) (hs : List H) (ended : Ended (Async H) (Unit {0}))
        : Type 0 where
      pub client : Async H
      pub answer : ended ≡ returned tt client
      pub orderly : Orderly c sent hs client
      pub no_task : client.tasks ≡ []

    drain-Drained :
        (is : List (Issued H)) (sent : List Bytes) (hs : List H) (d : Async H)
        → d.tasks ≡ map task is
        → Orderly c sent hs d
        → Drained
            (sent ++ map bytes is)
            (hs ++ map (λ i. i.handler) is)
            (drain describe call (length is) d)
    drain-Drained [] sent hs d e o = record {
      client = d;
      answer = refl;
      orderly = Orderly-path d (sym (append-nil sent)) (sym (append-nil hs)) o;
      no_task = e;
    }
    drain-Drained (i ∷ is) sent hs d e o =
        let start = record d { tasks = map task is } in
        let (f, ran, left) =
          command_returns start (bytes i) i.handler d.data_written d.data_queued in
        let next = drain-Drained is (sent ++ bytes i ∷ []) (hs ++ i.handler ∷ []) f left (
          Orderly-queue describe c sent hs start f (bytes i) i.handler d.data_written d.data_queued
            (record {
              order = o.order;
              waiting = o.waiting;
              one_write = o.one_write;
              in_time = o.in_time;
            })
            ran) in
        record {
          client = next.client;
          answer =
              rw (◌>>◌, ◌>>=◌, run_task-command d (bytes i) i.handler (map task is) e ∙ ran)
                next.answer;
          orderly =
              Orderly-path next.client (append_assoc sent (bytes i ∷ []) (map bytes is))
                (append_assoc hs (i.handler ∷ []) (map (λ x. x.handler) is)) next.orderly;
          no_task = next.no_task;
        }

  -- What a server is to read of a call.
  abbrev pub said : Issued H → List Bytes
  said i = i.cmd ∷ map content i.args

  map-said : (is : List (Issued H)) → map (map content) (map items is) ≡ map said is
  map-said [] = refl
  map-said (i ∷ is) = ap (◌∷◌ (said i)) (map-said is)

  flatten-bytes : (is : List (Issued H)) → flatten (map bytes is) ≡ requests (map items is)
  flatten-bytes [] = refl
  flatten-bytes (i ∷ is) = ap (◌++◌ (bytes i)) (flatten-bytes is)

  read-bytes :
      (is : List (Issued H))
      → read_requests (length is) (flatten (map bytes is)) ≡ some (map said is, [])
  read-bytes is =
      ap (read_requests (length is)) (flatten-bytes is ∙ sym (append-nil (requests (map items is))))
      ∙ ap (λ n. read_requests n (requests (map items is) ++ [])) (sym (length-map items is))
      ∙ read_requests-requests (map items is) []
      ∙ ap (λ x. some (x, [])) (map-said is)

  map-task-append : (is js : List (Issued H)) → map task is ++ map task js ≡ map task (is ++ js)
  map-task-append [] js = refl
  map-task-append (i ∷ is) js = ap (◌∷◌ (task i)) (map-task-append is js)

  -- Every command has run: behind what was written or queued before, the server reads the commands in
  -- what went out and what is queued, and their handlers wait.
  pub record Commanded (c : Async H) (is : List (Issued H)) (ended : Ended (Async H) (Unit {0}))
      : Type 0 where
    pub client : Async H
    pub answer : ended ≡ returned tt client
    pub behind : Bytes
    pub order :
        client.wire ++ flatten client.data_queued ≡ (c.wire ++ flatten c.data_queued) ++ behind
    pub read : read_requests (length is) behind ≡ some (map said is, [])
    pub waiting : client.handlers ≡ c.handlers ++ map (λ i. i.handler) is
    pub one_write : client.writes ≡ outstanding client.data_written
    pub in_time : client.data_written ≡ [] → client.data_queued ≡ []
    pub no_task : client.tasks ≡ []

  -- A connected client to which commands are posted that have not run.
  abbrev pub posting_client : List (Issued H) → Async H → Async H
  posting_client earlier c = record c { state = connected; tasks = map task earlier }

  -- Commands that are given to a connected client and run by its strand, behind those that were posted
  -- before, while no write ends: the server reads each command with its
  -- arguments, in the order of the calls and whole, in the bytes that went out and those that are
  -- queued behind the write under way, and these follow all that the client had written or queued. The
  -- handlers wait in the same order behind those that waited. This is for a client that has one write
  -- under way at most, and one if something is queued.
  pub command-Commanded :
      (build : Build) (describe : Option ErrorCode → Bytes) (call : Calls H) (c : Async H)
      (earlier is : List (Issued H))
      → c.writes ≡ outstanding c.data_written
      → (c.data_written ≡ [] → c.data_queued ≡ [])
      → Commanded c (earlier ++ is) (
          (issue build is >> drain describe call (length (earlier ++ is)))
            (posting_client earlier c))
  command-Commanded build describe call c earlier is one in_time =
      let all = earlier ++ is in
      let given = record (posting_client earlier c) { tasks = map task earlier ++ map task is } in
      let d =
        drain-Drained describe call c all c.data_queued [] given (map-task-append earlier is)
          (record {
            order = refl;
            waiting = sym (append-nil c.handlers);
            one_write = one;
            in_time = in_time;
          }) in
      record {
        client = d.client;
        answer = rw (◌>>◌, ◌>>=◌, issue-connected build is c (map task earlier)) d.answer;
        behind = flatten (map bytes all);
        order =
            d.orderly.order
            ∙ ap (◌++◌ c.wire) (flatten-append c.data_queued (map bytes all))
            ∙ sym (append_assoc c.wire (flatten c.data_queued) (flatten (map bytes all)));
        read = read-bytes all;
        waiting = d.orderly.waiting;
        one_write = d.orderly.one_write;
        in_time = d.orderly.in_time;
        no_task = d.no_task;
      }
