-- ===== src/Client/Async/Pushes.antt =====
-- What a subscribed client makes of the messages that a server pushes.
use redisclient_libary.Common.{
  Bytes, ◌∷◌, ◌++◌, ℕ, length, codes, Option, none, Build, debug, release, ok, ◌≡◌, refl, ◌∙◌,
}
use redisclient_libary.Common.Decimal.{to_string}
use redisclient_libary.Parser.Step.{Parser, start, step, is_start}
use redisclient_libary.Parser.Number.{buffer_to_long}
use redisclient_libary.Parser.Bytewise.{run}
use redisclient_libary.Parser.Delivery.{IsIdle}
use redisclient_libary.Parser.Replies.{run-idle}
use redisclient_libary.Parser.{error, parse, after}
use redisclient_libary.Socket.{ErrorCode}
use redisclient_libary.Client.{◌>>=◌}
use redisclient_libary.Client.Async.{OnError, Async, Calls, report}
use redisclient_libary.Client.Async.Loops.{read_round, read_loop, async_read}

-- How a server pushes a message: an array of the word `message`, the channel and the message.
abbrev pub pushed : Bytes → Bytes → Bytes
pushed channel payload =
    codes "*3\r\n$7\r\nmessage\r\n$"
    ++ ((to_string (length channel) ++ (codes "\r\n" ++ channel))
        ++ (codes "\r\n$"
            ++ ((to_string (length payload) ++ (codes "\r\n" ++ payload)) ++ codes "\r\n")))

run_push :
    (build : Build) (p : Parser) (rest : Bytes)
    → (q : Parser) × (run build start p 0 (codes "*3\r\n$7\r\n" ++ rest)
        ≡ ok (record { consumed = 8; result = error; parser = q }))
unfolding run step is_start buffer_to_long after
run_push debug p rest = (_, refl)
run_push release p rest = (_, refl)

module _ {H : Type 0} ⦃errors : OnError H⦄ (build : Build) (describe : Option ErrorCode → Bytes)
    (call : Calls H) where
  async_read-error :
      (c : Async H) (q : Parser) (b : ℕ) (bs : Bytes) (n : ℕ)
      → parse build c.parser (b ∷ bs) ≡ ok (record { consumed = n; result = error; parser = q })
      → async_read build describe call none (b ∷ bs) c
        ≡ report (codes "[RedisClient] Parser error") (record c { parser = q })
  unfolding async_read read_loop read_round
  async_read-error c q b bs n e = rw (◌>>=◌, e) refl

  -- A message that a server pushes to a subscribed client reaches no handler: whatever the channel, the
  -- message and the handlers that were subscribed, a client that waits for a reply reports a parser
  -- error and begins no further read.
  pub async_read-pushed :
      (c : Async H) (channel payload : Bytes)
      → IsIdle c.parser
      → (q : Parser) × (async_read build describe call none (pushed channel payload) c
          ≡ report (codes "[RedisClient] Parser error") (record c { parser = q }))
  async_read-pushed c channel payload idle =
      let (q, e) = run_push build c.parser (
        codes "message\r\n$"
        ++ ((to_string (length channel) ++ (codes "\r\n" ++ channel))
            ++ (codes "\r\n$"
                ++ ((to_string (length payload) ++ (codes "\r\n" ++ payload)) ++ codes "\r\n")))) in
      (q, async_read-error c q _ _ 8 (run-idle build c.parser (pushed channel payload) idle ∙ e))
