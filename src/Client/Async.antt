-- ===== src/Client/Async.antt =====
-- src/redisclient/RedisClientImpl.cpp: the asynchronous part. A handler is a name, and what a call of
-- it does to the client is an argument, `call`: it is the caller's code, which may use the client. What
-- is posted to the strand waits in `tasks`.
pub mod Loops
pub mod Subscriptions
pub mod Answers
pub mod Writes
pub mod Pushes
pub mod Handles
pub mod Feeding
pub mod Chunks
pub mod Single
use redisclient_libary.Common.{
  Bytes, Bool, true, false, not, ◌&&◌, ◌||◌, List, [], ◌∷◌, ◌++◌, eq_bytes, ℕ, zero, suc, ◌+◌, ◌-◌,
  ◌==◌, codes, Option, none, some, if◌then◌else◌, empty_container,
}
use redisclient_libary.Value.{
  RedisValue, Values, nil, cons, to_array, to_text, to_byte_array, inspect, size,
}
use redisclient_libary.Parser.Step.{Parser}
use redisclient_libary.Parser.{error, result}
use redisclient_libary.Socket.{ErrorCode, system}
use redisclient_libary.Client.{
  State, closed, is_subscribed_state, ErrorHandler, default_handler, installed, runtime_error,
  Ended, returned, thrown, crashed, ◌>>=◌, ◌>>◌, return,
}

-- What a handler is called with: a reply, a message, or the error code of a connection.
pub data Argument : Type 0 where
  reply : RedisValue → Argument
  message : Bytes → Argument
  code : Option ErrorCode → Argument

-- What is posted: `doAsyncCommand` with its arguments, and a call of a message handler.
pub data Task (H : Type 0) : Type 0 where
  command_task : Bytes → H → Task H
  message_task : H → Bytes → Task H

-- The client. A multimap is the list of its entries in the order of insertion, in which those of a
-- key stand as in its `equal_range`. The last fields are what surrounds it: how many writes and reads
-- are begun and have not ended, the bytes of the writes, the calls of handlers, the messages that an
-- installed error handler got, and what the caller's code marks for itself, its timers say.
pub record Async (H : Type 0) : Type 0 where
  pub parser : Parser
  pub state : State
  pub error_handler : ErrorHandler
  pub subscribe_seq : ℕ
  pub handlers : List H
  pub data_written : List Bytes
  pub data_queued : List Bytes
  pub msg_handlers : List (Bytes × (ℕ × H))
  pub single_shot_msg_handlers : List (Bytes × H)
  pub tasks : List (Task H)
  pub writes : ℕ
  pub reads : ℕ
  pub wire : Bytes
  pub calls : List (H × Argument)
  pub messages : List Bytes
  pub marks : List H

abbrev pub Run : Type 0 → Type 0 → Type 0
Run H A = Async H → Ended (Async H) A

-- What the caller's handlers do.
abbrev pub Calls : Type 0 → Type 0
Calls H = H → Argument → Run H Unit

-- What the function does that the caller installed as the error handler.
pub record OnError (H : Type 0) : Type 0 where
  pub on_error : Bytes → Run H Unit

-- ECANCELED, the number of `operation_aborted`.
abbrev pub ecanceled : ℕ
ecanceled = 125

abbrev pub is_aborted : Option ErrorCode → Bool
is_aborted (some (system n)) = n == ecanceled
is_aborted _ = false

abbrev pub is_message : Bytes → Bool
is_message cmd = eq_bytes cmd (codes "message") || eq_bytes cmd (codes "pmessage")

abbrev pub is_subscription : Bytes → Bool
is_subscription cmd =
    eq_bytes cmd (codes "subscribe")
    || eq_bytes cmd (codes "unsubscribe")
    || eq_bytes cmd (codes "psubscribe")
    || eq_bytes cmd (codes "punsubscribe")

module _ {H : Type 0} where
  unfoldable pub invoke : Calls H → H → Argument → Run H Unit
  invoke call h x c = call h x (record c { calls = c.calls ++ (h, x) ∷ [] })

  unfoldable pub post : Task H → Run H Unit
  post task c = returned tt (record c { tasks = c.tasks ++ task ∷ [] })

  unfoldable pub process_message : Run H Unit
  process_message c = returned tt (record c { reads = c.reads + 1 })

  unfoldable pub close : Run H Unit
  close c = returned tt (record c { msg_handlers = []; handlers = []; state = closed })

  -- `handlers.front()(v); handlers.pop();`
  unfoldable pub pop_handler : Run H Unit
  pop_handler c = elim c.handlers [
    | [] ↦ crashed empty_container
    | h ∷ hs ↦ returned tt (record c { handlers = hs })
  ]

  unfoldable pub call_front : Calls H → RedisValue → Run H Unit
  call_front call v c = elim c.handlers [
    | [] ↦ crashed empty_container
    | h ∷ hs ↦ (invoke call h (reply v) >> pop_handler) c
  ]

  -- `find` and `erase`: the handler of the first entry with the key, and the others.
  abbrev pub find_key : Bytes → List (Bytes × H) → Option H
  find_key key [] = none
  find_key key ((k, h) ∷ rest) =
      let more = find_key key rest in if eq_bytes k key then some h else more

  abbrev pub erase_key : Bytes → List (Bytes × H) → List (Bytes × H)
  erase_key key [] = []
  erase_key key ((k, h) ∷ rest) =
      let more = erase_key key rest in if eq_bytes k key then rest else (k, h) ∷ more

  unfoldable pub post_single_shot : Bytes → Bytes → Run H Unit
  post_single_shot pattern value c = elim (find_key pattern c.single_shot_msg_handlers) [
    | none ↦ returned tt c
    | some h ↦ returned tt (record c {
      tasks = c.tasks ++ message_task h value ∷ [];
      single_shot_msg_handlers = erase_key pattern c.single_shot_msg_handlers;
    })
  ]

  -- The loop over `equal_range`.
  abbrev pub message_tasks : Bytes → Bytes → List (Bytes × (ℕ × H)) → List (Task H)
  message_tasks pattern value [] = []
  message_tasks pattern value ((k, (id, h)) ∷ rest) =
      let more = message_tasks pattern value rest in
      if eq_bytes k pattern then message_task h value ∷ more else more

  unfoldable pub post_messages : Bytes → Bytes → Run H Unit
  post_messages pattern value c =
      returned tt (record c { tasks = c.tasks ++ message_tasks pattern value c.msg_handlers })

  abbrev pub is_empty : List H → Bool
  is_empty [] = true
  is_empty (_ ∷ _) = false

module _ {H : Type 0} ⦃errors : OnError H⦄ where
  -- `errorHandler(message)`
  unfoldable pub report : Bytes → Run H Unit
  report note c = elim c.error_handler [
    | default_handler ↦ thrown (runtime_error note) c
    | installed ↦ errors.on_error note (record c { messages = c.messages ++ note ∷ [] })
  ]

  -- The branches on `cmd`.
  unfoldable pub dispatch : Calls H → RedisValue → Bytes → Bytes → Bytes → Run H Unit
  dispatch call v cmd pattern value c =
      if is_message cmd
      then (post_single_shot pattern value >> post_messages pattern value) c
      else if not (is_empty c.handlers) && is_subscription cmd
      then call_front call v c
      else report (codes "[RedisClient] invalid command: " ++ cmd) c

  -- `result[0]`, the name of the queue, the value and the pattern: by size 3, 4 and above.
  unfoldable pub process_array : Calls H → RedisValue → Values → Run H Unit
  process_array call v (cons command (cons queue_name (cons value nil))) =
      dispatch call v (to_text command) (to_text queue_name) (to_byte_array value)
  process_array call v (cons command (cons pattern (cons queue_name (cons value nil)))) =
      dispatch call v (to_text command) (to_text pattern) (to_byte_array value)
  process_array call v (cons command (cons _ (cons queue_name (cons value (cons _ _))))) =
      dispatch call v (to_text command) (to_text queue_name) (to_byte_array value)
  process_array call v _ = report (codes "[RedisClient] Protocol error")

  unfoldable pub do_process_message : Calls H → RedisValue → Run H Unit
  do_process_message call v c =
      if is_subscribed_state c.state
      then process_array call v (to_array v) c
      else if not (is_empty c.handlers)
      then call_front call v c
      else report (codes "[RedisClient] unexpected message: " ++ inspect v) c
