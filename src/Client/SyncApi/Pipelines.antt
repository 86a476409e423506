-- ===== src/Client/SyncApi/Pipelines.antt =====
-- A whole exchange with a server: a pipeline, a single command, and what the server reads.
use redisclient_libary.Common.{
  Bytes, flatten, List, [], ◌∷◌, ◌++◌, append-nil, length, take, take-length, map, All, none, some,
  Build, debug, release, true, ◌≡◌, inl, inr, refl, ap, ◌∙◌, sym,
}
use redisclient_libary.Value.{RedisValue, array_value}
use redisclient_libary.Parser.Step.{Parser}
use redisclient_libary.Parser.Print.{Reply, IsSendable, print, meaning}
use redisclient_libary.Parser.Stream.{printed}
use redisclient_libary.Parser.Delivery.{IsIdle}
use redisclient_libary.Buffer.{RedisBuffer, content, text}
use redisclient_libary.Command.{make_command}
use redisclient_libary.Command.Decode.{read_requests}
use redisclient_libary.Command.RoundTrip.{requests, read_requests-requests}
use redisclient_libary.Socket.{SendAttempt, Written, socket_write, socket_write_buffers}
use redisclient_libary.Socket.Transfer.{IsSend}
use redisclient_libary.Socket.Buffers.{socket_write_buffers-Outcome}
use redisclient_libary.Client.{connected, returned, ◌>>=◌}
use redisclient_libary.Client.Sync.{OnError, Sync, Run, do_sync_command, do_sync_commands}
use redisclient_libary.Client.Sync.Listening.{IsChunk, listening}
use redisclient_libary.Client.Sync.Replies.{
  meanings, Replied, sent, do_sync_command-Replied, do_sync_commands-Replied,
}
use redisclient_libary.Client.SyncApi.{
  statement_valid, guarded, throwing, pipelined, pipelined_ec, command, command_ec,
}

flatten-requests :
    (commands : List (List RedisBuffer)) → flatten (map make_command commands) ≡ requests commands
flatten-requests [] = refl
flatten-requests (items ∷ commands) = ap (◌++◌ (make_command items)) (flatten-requests commands)

-- When a pipeline's commands are written without an error, the server reads them as they were given,
-- in their order, and no byte behind them. `send` is taken to accept no more than it is offered.
pub socket_write_buffers-requests :
    (attempts : List SendAttempt) (commands : List (List RedisBuffer)) (w : Written)
    → All IsSend attempts
    → socket_write_buffers attempts none (map make_command commands) ≡ some w
    → w.ec ≡ none
    → read_requests (length commands) w.wire ≡ some (map (map content) commands, [])
socket_write_buffers-requests attempts commands w h e clear =
    let (wire, _, ended) =
      socket_write_buffers-Outcome attempts (map make_command commands) w h e in
    elim ended [
      | inr (_, (x, u)) ↦ cc (u, clear)
      | inl (all, _) ↦
          ap (read_requests (length commands)) (
            wire
            ∙ ap (λ n. take n (flatten (map make_command commands))) all
            ∙ take-length (flatten (map make_command commands))
            ∙ flatten-requests commands
            ∙ sym (append-nil (requests commands)))
          ∙ read_requests-requests commands []
    ]

statement_valid-connected :
    ⦃errors : OnError⦄ (build : Build) (x : Sync)
    → x.state ≡ connected
    → statement_valid build x ≡ returned true x
unfolding statement_valid
statement_valid-connected debug x e = rw (◌>>=◌, e) refl
statement_valid-connected release x e = rw (◌>>=◌, e) refl

guarded-connected :
    ⦃errors : OnError⦄ (build : Build) (run : Run RedisValue) (x : Sync)
    → x.state ≡ connected
    → guarded build run x ≡ run x
unfolding guarded
guarded-connected build run x e = rw (◌>>=◌, statement_valid-connected build x e) refl

throwing-returned :
    (run : Run RedisValue) (x y : Sync) (v : RedisValue)
    → run (record x { ec = none }) ≡ returned v y
    → y.ec ≡ none
    → throwing run x ≡ returned v y
unfolding throwing
throwing-returned run x y v e clear = rw (◌>>=◌, e, clear) refl

-- `pipelined`, on a connected client that is between replies and whose commands go out without an
-- error, when the server prints as many replies as there are commands, none of them an array: it
-- returns the array of their values in their order. The client is left between replies, with what
-- follows to be read, however the stream was cut into chunks that fit its buffer. The replies are
-- lines of printable ASCII, integers other than LONG_MIN, nil, and payloads of any bytes.
pub pipelined-Replied :
    ⦃errors : OnError⦄ (build : Build) (c : Sync) (commands : List (List RedisBuffer))
    (rs : List Reply) (p : Parser) (held : Bytes) (chunks : List Bytes) (rest : Bytes) (w : Written)
    → c.state ≡ connected
    → length rs ≡ length commands
    → IsIdle p
    → All IsSendable rs
    → All IsChunk chunks
    → held ++ flatten chunks ≡ printed rs rest
    → socket_write_buffers c.sends none (map make_command commands) ≡ some w
    → w.ec ≡ none
    → Replied
        (sent c w)
        rest
        (array_value (meanings rs))
        (pipelined build commands (listening c p held chunks))
unfolding pipelined pipelined_ec
pipelined-Replied build c commands rs p held chunks rest w on l idle h cs e out clear =
    let d =
      do_sync_commands-Replied build c commands rs p held chunks rest w l idle h cs e out clear in
    record {
      parser = d.parser;
      buf = d.buf;
      left = d.left;
      answer =
          throwing-returned (pipelined_ec build commands) (listening c p held chunks)
            (listening (sent c w) d.parser d.buf d.left) _
            (guarded-connected build (do_sync_commands build commands) (listening c p held chunks)
                on
              ∙ d.answer)
            refl;
      idle = d.idle;
      behind = d.behind;
      chunked = d.chunked;
    }

-- The same for `command` with the caller's error code, which is not set.
pub command_ec-Replied :
    ⦃errors : OnError⦄ (build : Build) (c : Sync) (cmd : Bytes) (args : List RedisBuffer)
    (r : Reply) (p : Parser) (held : Bytes) (chunks : List Bytes) (rest : Bytes) (w : Written)
    → c.state ≡ connected
    → IsIdle p
    → IsSendable r
    → All IsChunk chunks
    → held ++ flatten chunks ≡ print r rest
    → socket_write c.sends none (make_command (text cmd ∷ args)) ≡ some w
    → w.ec ≡ none
    → Replied (sent c w) rest (meaning r) (command_ec build cmd args (listening c p held chunks))
unfolding command_ec
command_ec-Replied build c cmd args r p held chunks rest w on idle h cs e out clear =
    let d =
      do_sync_command-Replied build c (text cmd ∷ args) r p held chunks rest w idle h cs e out
        clear in
    record {
      parser = d.parser;
      buf = d.buf;
      left = d.left;
      answer =
          guarded-connected build (do_sync_command build (text cmd ∷ args))
            (listening c p held chunks) on
          ∙ d.answer;
      idle = d.idle;
      behind = d.behind;
      chunked = d.chunked;
    }

-- `command`, on a connected client that is between replies and whose request goes out without an
-- error, when the server prints a reply that is no array: it returns the value of the reply, and
-- leaves the client between replies with what follows to be read, however the stream was cut into
-- chunks that fit its buffer. The reply is a line of printable ASCII, an integer other than
-- LONG_MIN, nil, or a payload of any bytes.
pub command-Replied :
    ⦃errors : OnError⦄ (build : Build) (c : Sync) (cmd : Bytes) (args : List RedisBuffer)
    (r : Reply) (p : Parser) (held : Bytes) (chunks : List Bytes) (rest : Bytes) (w : Written)
    → c.state ≡ connected
    → IsIdle p
    → IsSendable r
    → All IsChunk chunks
    → held ++ flatten chunks ≡ print r rest
    → socket_write c.sends none (make_command (text cmd ∷ args)) ≡ some w
    → w.ec ≡ none
    → Replied (sent c w) rest (meaning r) (command build cmd args (listening c p held chunks))
unfolding command
command-Replied build c cmd args r p held chunks rest w on idle h cs e out clear =
    let d = command_ec-Replied build c cmd args r p held chunks rest w on idle h cs e out clear in
    record {
      parser = d.parser;
      buf = d.buf;
      left = d.left;
      answer =
          throwing-returned (command_ec build cmd args) (listening c p held chunks)
            (listening (sent c w) d.parser d.buf d.left) (meaning r) d.answer refl;
      idle = d.idle;
      behind = d.behind;
      chunked = d.chunked;
    }
