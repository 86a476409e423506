-- ===== src/Client/Sync.antt =====
-- src/redisclient/RedisClientImpl.cpp and RedisSyncClient.cpp: the synchronous client.
pub mod Listening
pub mod Response
pub mod Replies
pub mod Errors
pub mod Safe
use redisclient_libary.Common.{
  Bytes, Bool, true, false, List, [], ◌∷◌, ◌++◌, ℕ, zero, suc, ◌+◌, length, drop, map, codes,
  Option, none, some, if◌then◌else◌, Build, out_of_fuel,
}
use redisclient_libary.Value.{RedisValue, Values, nil, push_back, null_value, array_value}
use redisclient_libary.Parser.{completed, uncompleted, error, Parsed, parse, result}
use redisclient_libary.Parser.Step.{Parser}
use redisclient_libary.Buffer.{RedisBuffer}
use redisclient_libary.Command.{make_command}
use redisclient_libary.Socket.{
  ErrorCode, SendAttempt, RecvAttempt, socket_write, socket_write_buffers, socket_read_some,
}
use redisclient_libary.Client.{
  State, ErrorHandler, default_handler, installed, runtime_error, Ended, returned, thrown, crashed,
  waiting, ◌>>=◌, ◌>>◌, return, lift,
}

-- The client and what surrounds it. `buf` is the first `bufSize` bytes of the client's array, and
-- `ec` the variable that a caller passes by reference. The rest is the system's: the bytes that went
-- out, the attempts to come, and the messages that an installed handler got.
pub record Sync : Type 0 where
  pub parser : Parser
  pub buf : Bytes
  pub state : State
  pub error_handler : ErrorHandler
  pub ec : Option ErrorCode
  pub wire : Bytes
  pub sends : List SendAttempt
  pub receives : List RecvAttempt
  pub messages : List Bytes

abbrev pub Run : Type 0 → Type 0
Run A = Sync → Ended Sync A

-- What the function does that the caller installed as the error handler.
pub record OnError : Type 0 where
  pub on_error : Bytes → Run Unit

module _ ⦃errors : OnError⦄ where
  -- `errorHandler(message)`
  unfoldable pub report : Bytes → Run Unit
  report message c = elim c.error_handler [
    | default_handler ↦ thrown (runtime_error message) c
    | installed ↦ errors.on_error message (record c { messages = c.messages ++ message ∷ [] })
  ]

-- The size of the client's array.
abbrev pub capacity : ℕ
capacity = 4096

-- `if (bufSize == 0)`: a read, and whether the error code is set behind it.
unfoldable pub fill : Run Bool
fill c = elim c.buf [
  | _ ∷ _ ↦ returned false c
  | [] ↦ elim (socket_read_some c.receives c.ec capacity) [
    | none ↦ waiting
    | some got ↦
        returned (elim got.ec [ none ↦ false | some _ ↦ true ])
          (record c { buf = got.bytes; ec = got.ec; receives = got.attempts })
  ]
]

-- What follows a round: `return`, or the rounds to come.
abbrev pub resume : (ℕ → Run (Option RedisValue)) → Option RedisValue × ℕ → Run (Option RedisValue)
resume again (some v, next) = return (some v)
resume again (none, next) = again next

module _ ⦃errors : OnError⦄ where
  unfoldable pub parser_error : ℕ → Run (Option RedisValue × ℕ)
  unfolding report
  parser_error next = do report (codes "[RedisClient] Parser error"); return (some null_value, next)

  -- One round of the inner loop, with the parser's answer for the bytes from `pos` on: the value, or
  -- `pos` for the next round.
  unfoldable pub round : ℕ → Parsed → Run (Option RedisValue × ℕ)
  unfolding parser_error result
  round pos r c =
      let next = pos + r.consumed in
      let kept = record c { parser = r.parser; buf = drop next c.buf } in
      elim r.result [
        | completed ↦
            let (v, q) = result r.parser in returned (some v, next) (record kept { parser = q })
        | uncompleted ↦ returned (none, next) kept
        | error ↦ parser_error next kept
      ]

  -- `for (pos = 0; pos < bufSize;)`. The bytes at `pos` up to `bufSize` are `drop pos c.buf`, of which
  -- a round reads one at least, so that `bufSize` rounds are enough.
  unfoldable pub scan : Build → ℕ → ℕ → Run (Option RedisValue)
  unfolding round
  scan build zero pos c = elim (drop pos c.buf) [
    | [] ↦ returned none c
    | b ∷ bs ↦ crashed out_of_fuel
  ]
  scan build (suc fuel) pos c = elim (drop pos c.buf) [
    | [] ↦ returned none c
    | b ∷ bs ↦ (lift (parse build c.parser (b ∷ bs)) >>= round pos >>= resume (scan build fuel)) c
  ]

  -- One round of the outer loop. The bytes that a failed read leaves stay in `buf`.
  unfoldable pub response_round : Build → Run (Option RedisValue)
  response_round build = do
    failed ← fill
    if failed then return (some null_value) else λ c. scan build (length c.buf) 0 c

  -- `for (;;)`. Each round but the first reads, and takes an attempt at least.
  unfoldable pub response_loop : Build → ℕ → Run RedisValue
  unfolding response_round
  response_loop build zero c = crashed out_of_fuel
  response_loop build (suc fuel) c =
      (response_round build >>= λ found. elim found [
        | some v ↦ return v
        | none ↦ response_loop build fuel
      ])
        c

  unfoldable pub sync_read_response : Build → Run RedisValue
  unfolding response_loop
  sync_read_response build c = response_loop build (length c.receives + 2) c

-- `socketWrite`, of one buffer and of several.
unfoldable pub write_buffer : Bytes → Run Unit
write_buffer content c = elim (socket_write c.sends c.ec content) [
  | none ↦ waiting
  | some w ↦ returned tt (record c { wire = c.wire ++ w.wire; ec = w.ec; sends = w.attempts })
]

unfoldable pub write_buffers : List Bytes → Run Unit
write_buffers content c = elim (socket_write_buffers c.sends c.ec content) [
  | none ↦ waiting
  | some w ↦ returned tt (record c { wire = c.wire ++ w.wire; ec = w.ec; sends = w.attempts })
]

-- `if (ec) return RedisValue();`
unfoldable pub unless_failed : Run RedisValue → Run RedisValue
unless_failed next c = elim c.ec [ none ↦ next c | some _ ↦ returned null_value c ]

module _ ⦃errors : OnError⦄ where
  unfoldable pub do_sync_command : Build → List RedisBuffer → Run RedisValue
  do_sync_command build command = do
    write_buffer (make_command command)
    unless_failed (sync_read_response build)

  -- The loop over the responses.
  unfoldable pub read_responses : Build → List (List RedisBuffer) → Values → Run RedisValue
  read_responses build [] responses = return (array_value responses)
  read_responses build (command ∷ commands) responses = do
    v ← sync_read_response build
    unless_failed (read_responses build commands (push_back responses v))

  unfoldable pub do_sync_commands : Build → List (List RedisBuffer) → Run RedisValue
  do_sync_commands build commands = do
    write_buffers (map make_command commands)
    unless_failed (read_responses build commands nil)
