-- ===== src/Client/Async/Answers.antt =====
-- The handler that a connected client calls for a reply.
use redisclient_libary.Common.{
  Bytes, List, [], ◌∷◌, ◌++◌, ℕ, zero, suc, ◌+◌, ◌<◌, length, drop, Build, false, ok,
  empty_container, ◌≡◌, refl, arith,
}
use redisclient_libary.Value.{RedisValue}
use redisclient_libary.Parser.Step.{Parser}
use redisclient_libary.Parser.Print.{Reply, meaning}
use redisclient_libary.Parser.{completed, parse, result}
use redisclient_libary.Client.{connected, is_subscribed_state, returned, crashed, ◌>>=◌, ◌>>◌}
use redisclient_libary.Client.Async.{
  OnError, Async, Calls, Argument, Task, reply, invoke, pop_handler, call_front, close,
  do_process_message, process_message,
}
use redisclient_libary.Client.Async.Loops.{read_round, read_loop}

module _ {H : Type 0} ⦃errors : OnError H⦄ where
  -- Handlers that do not use the client.
  abbrev pub IsQuiet : Calls H → Type 0
  IsQuiet call = (h : H) (x : Argument) (c : Async H) → call h x c ≡ returned tt c

  -- What the calls of handlers give, each some: tasks to post, or marks.
  abbrev pub posted : {B : Type 0} → (H → Argument → List B) → List (H × Argument) → List B
  posted new [] = []
  posted new ((h, x) ∷ calls) = new h x ++ posted new calls

  -- Handlers that use a connected client only to post tasks, and that mark something besides.
  abbrev pub IsPosting : Calls H → (H → Argument → List (Task H)) → (H → Argument → List H) → Type 0
  IsPosting call new notes =
      (h : H) (x : Argument) (c : Async H)
      → call h x (record c { state = connected })
        ≡ returned tt (record c {
          state = connected;
          tasks = c.tasks ++ new h x;
          marks = c.marks ++ notes h x;
        })

  -- A connected client with a parser, handlers that wait, calls that were made, tasks and marks.
  abbrev pub serving :
      Async H → Parser → List H → List (H × Argument) → List (Task H) → List H → Async H
  serving c p hs calls tasks marks = record c {
    state = connected;
    parser = p;
    handlers = hs;
    calls = calls;
    tasks = tasks;
    marks = marks;
  }

  -- The calls with which handlers get the values of replies, one each.
  abbrev pub answered : List H → List Reply → List (H × Argument)
  answered (h ∷ hs) (r ∷ rs) = (h, reply (meaning r)) ∷ answered hs rs
  answered _ _ = []

  module _ (call : Calls H) (new : H → Argument → List (Task H)) (notes : H → Argument → List H)
      (posting : IsPosting call new notes) (c : Async H) where
    call_front-serving :
        (v : RedisValue) (p : Parser) (h : H) (hs : List H) (calls : List (H × Argument))
        (tasks : List (Task H)) (marks : List H)
        → call_front call v (serving c p (h ∷ hs) calls tasks marks)
          ≡ returned tt (
              serving c p hs
                (calls ++ (h, reply v) ∷ [])
                (tasks ++ new h (reply v))
                (marks ++ notes h (reply v)))
    unfolding call_front invoke pop_handler
    call_front-serving v p h hs calls tasks marks =
        rw
          (
            ◌>>◌,
            ◌>>=◌,
            posting h (reply v) (serving c p (h ∷ hs) (calls ++ (h, reply v) ∷ []) tasks marks),
          )
          refl

    do_process_message-serving :
        (v : RedisValue) (p : Parser) (h : H) (hs : List H) (calls : List (H × Argument))
        (tasks : List (Task H)) (marks : List H)
        → do_process_message call v (serving c p (h ∷ hs) calls tasks marks)
          ≡ returned tt (
              serving c p hs
                (calls ++ (h, reply v) ∷ [])
                (tasks ++ new h (reply v))
                (marks ++ notes h (reply v)))
    unfolding do_process_message
    do_process_message-serving v p h hs calls tasks marks =
        call_front-serving v p h hs calls tasks marks

    module _ (build : Build) where
      pub read_loop-completed :
          (fuel : ℕ) (xs : Bytes) (p : Parser) (h : H) (hs : List H) (calls : List (H × Argument))
          (tasks : List (Task H)) (marks : List H) (n : ℕ) (q : Parser)
          → 0 < length xs
          → parse build p xs ≡ ok (record { consumed = n; result = completed; parser = q })
          → read_loop build call (suc fuel) xs (serving c p (h ∷ hs) calls tasks marks)
            ≡ read_loop build call fuel (drop n xs) (
                serving c
                  (result q).1
                  hs
                  (calls ++ (h, reply q.redis_value) ∷ [])
                  (tasks ++ new h (reply q.redis_value))
                  (marks ++ notes h (reply q.redis_value)))
      unfolding read_loop read_round result
      read_loop-completed fuel [] p h hs calls tasks marks n q l e = absurd (omega arith)
      read_loop-completed fuel (b ∷ bs) p h hs calls tasks marks n q l e =
          rw
            (
              ◌>>=◌,
              e,
              ◌>>◌,
              do_process_message-serving q.redis_value (result q).1 h hs calls tasks marks,
            )
            refl

pub read_loop-nil :
    {H : Type 0} ⦃errors : OnError H⦄ (call : Calls H) (build : Build) (fuel : ℕ) (x : Async H)
    → read_loop build call fuel [] x ≡ returned tt (record x { reads = x.reads + 1 })
unfolding read_loop process_message
read_loop-nil call build zero x = refl
read_loop-nil call build (suc fuel) x = refl

-- A handler that closes the client while it gets its reply: the queue of handlers is emptied under
-- `doProcessMessage`, which takes the front of the empty queue off then. This is undefined behaviour
-- in every state but `Subscribed`.
pub do_process_message-closing :
    {H : Type 0} ⦃errors : OnError H⦄ (call : Calls H) (c : Async H) (v : RedisValue) (h : H)
    (hs : List H)
    → ((x : Async H) → call h (reply v) x ≡ close x)
    → is_subscribed_state c.state ≡ false
    → c.handlers ≡ h ∷ hs
    → do_process_message call v c ≡ crashed empty_container
unfolding do_process_message call_front invoke pop_handler close
do_process_message-closing call c v h hs closes e f = rw (e, f, ◌>>◌, ◌>>=◌, closes) refl
