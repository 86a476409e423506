-- ===== src/Client/Sync/Replies.antt =====
-- The synchronous client against a server that prints a reply to every command.
use redisclient_libary.Common.{
  Bytes, flatten, List, [], ◌∷◌, ◌++◌, length, drop, map, All, none, some, Build, ◌≡◌, refl, ap,
  ◌∙◌, sym, arith,
}
use redisclient_libary.Value.{RedisValue, Values, nil, cons, push_back, array_value}
use redisclient_libary.Parser.Step.{Parser}
use redisclient_libary.Parser.Print.{Reply, print, IsSendable, meaning}
use redisclient_libary.Parser.Delivery.{IsIdle}
use redisclient_libary.Parser.Replies.{parse-print}
use redisclient_libary.Parser.Stream.{printed, drop-print, print-pos}
use redisclient_libary.Parser.{parse, result}
use redisclient_libary.Buffer.{RedisBuffer}
use redisclient_libary.Command.{make_command}
use redisclient_libary.Socket.{Written, socket_write, socket_write_buffers}
use redisclient_libary.Client.{Ended, returned, ◌>>=◌}
use redisclient_libary.Client.Sync.{
  OnError, write_buffer, do_sync_command, Sync, sync_read_response, write_buffers, unless_failed,
  read_responses, do_sync_commands,
}
use redisclient_libary.Client.Sync.Listening.{IsChunk, listening}
use redisclient_libary.Client.Sync.Response.{sync_read_response-Answers}

-- The values of replies, behind those that there are.
abbrev pub meanings : List Reply → Values
meanings [] = nil
meanings (r ∷ rs) = cons (meaning r) (meanings rs)

abbrev followed : Values → List Reply → Values
followed nil rs = meanings rs
followed (cons v vs) rs = cons v (followed vs rs)

followed-nil : (vs : Values) → followed vs [] ≡ vs
followed-nil nil = refl
followed-nil (cons v vs) = ap (cons v) (followed-nil vs)

followed-push_back :
    (vs : Values) (r : Reply) (rs : List Reply)
    → followed (push_back vs (meaning r)) rs ≡ followed vs (r ∷ rs)
unfolding push_back
followed-push_back nil r rs = refl
followed-push_back (cons v vs) r rs = ap (cons v) (followed-push_back vs r rs)

-- An operation returns a value and leaves the client between replies, with `rest` to be read.
pub record Replied (c : Sync) (rest : Bytes) (v : RedisValue) (ended : Ended Sync RedisValue)
    : Type 0 where
  pub parser : Parser
  pub buf : Bytes
  pub left : List Bytes
  pub answer : ended ≡ returned v (listening c parser buf left)
  pub idle : IsIdle parser
  pub behind : buf ++ flatten left ≡ rest
  pub chunked : All IsChunk left

module _ ⦃errors : OnError⦄ (build : Build) (c : Sync) where
  read_reply :
      (p : Parser) (held : Bytes) (chunks : List Bytes) (r : Reply) (rest : Bytes)
      → IsIdle p
      → IsSendable r
      → All IsChunk chunks
      → held ++ flatten chunks ≡ print r rest
      → Replied c rest (meaning r) (sync_read_response build (listening c p held chunks))
  unfolding result
  read_reply p held chunks r rest idle h cs e =
      let d = parse-print build p r rest idle h in
      let a =
        sync_read_response-Answers build c p held chunks _ cs (ap (parse build p) e ∙ d.found) refl
          (print-pos r) in
      record {
        parser = (result d.parser).1;
        buf = a.buf;
        left = a.left;
        answer =
            a.answer ∙ ap (λ v. returned v (listening c (result d.parser).1 a.buf a.left)) d.value;
        idle = record { no_state = d.idle.no_state; no_array = d.idle.no_array };
        behind = a.behind ∙ ap (drop (length (print r []))) e ∙ drop-print r rest;
        chunked = a.chunked;
      }

  read_replies :
      (commands : List (List RedisBuffer)) (rs : List Reply) (vs : Values) (p : Parser)
      (held : Bytes) (chunks : List Bytes) (rest : Bytes)
      → length rs ≡ length commands
      → IsIdle p
      → All IsSendable rs
      → All IsChunk chunks
      → held ++ flatten chunks ≡ printed rs rest
      → Replied c rest
          (array_value (followed vs rs))
          (read_responses build commands vs (listening c p held chunks))
  unfolding read_responses unless_failed
  read_replies [] [] vs p held chunks rest l idle h cs e = record {
    parser = p;
    buf = held;
    left = chunks;
    answer = ap (λ x. returned (array_value x) (listening c p held chunks)) (sym (followed-nil vs));
    idle = idle;
    behind = e;
    chunked = cs;
  }
  read_replies [] (r ∷ rs) vs p held chunks rest l idle h cs e = absurd (omega arith)
  read_replies (_ ∷ commands) [] vs p held chunks rest l idle h cs e = absurd (omega arith)
  read_replies (_ ∷ commands) (r ∷ rs) vs p held chunks rest l idle (hr, hs) cs e =
      let first = read_reply p held chunks r (printed rs rest) idle hr cs e in
      let others =
        read_replies commands rs (push_back vs (meaning r)) first.parser first.buf first.left rest
          (omega arith) first.idle hs first.chunked first.behind in
      record {
        parser = others.parser;
        buf = others.buf;
        left = others.left;
        answer =
            rw (first.answer, ◌>>=◌)
              (others.answer
                ∙ ap
                    (λ x.
                      returned (array_value x) (listening c others.parser others.buf others.left))
                    (followed-push_back vs r rs));
        idle = others.idle;
        behind = others.behind;
        chunked = others.chunked;
      }

-- The client when a request has gone out.
abbrev pub sent : Sync → Written → Sync
sent c w = record c { wire = c.wire ++ w.wire; sends = w.attempts }

-- A pipeline: when the commands are written without an error and the server prints a reply to each,
-- what is returned is the array of the replies' values in the order of the commands, however the
-- stream is cut into chunks. The bytes behind the last reply are left to be read.
pub do_sync_commands-Replied :
    ⦃errors : OnError⦄ (build : Build) (c : Sync) (commands : List (List RedisBuffer))
    (rs : List Reply) (p : Parser) (held : Bytes) (chunks : List Bytes) (rest : Bytes) (w : Written)
    → length rs ≡ length commands
    → IsIdle p
    → All IsSendable rs
    → All IsChunk chunks
    → held ++ flatten chunks ≡ printed rs rest
    → socket_write_buffers c.sends none (map make_command commands) ≡ some w
    → w.ec ≡ none
    → Replied
        (sent c w)
        rest
        (array_value (meanings rs))
        (do_sync_commands build commands (listening c p held chunks))
unfolding do_sync_commands write_buffers unless_failed
do_sync_commands-Replied build c commands rs p held chunks rest w l idle h cs e out clear =
    rw (out, clear, ◌>>=◌, clear)
      (read_replies build (sent c w) commands rs nil p held chunks rest l idle h cs e)

-- A single command.
pub do_sync_command-Replied :
    ⦃errors : OnError⦄ (build : Build) (c : Sync) (command : List RedisBuffer) (r : Reply)
    (p : Parser) (held : Bytes) (chunks : List Bytes) (rest : Bytes) (w : Written)
    → IsIdle p
    → IsSendable r
    → All IsChunk chunks
    → held ++ flatten chunks ≡ print r rest
    → socket_write c.sends none (make_command command) ≡ some w
    → w.ec ≡ none
    → Replied
        (sent c w)
        rest
        (meaning r)
        (do_sync_command build command (listening c p held chunks))
unfolding do_sync_command write_buffer unless_failed
do_sync_command-Replied build c command r p held chunks rest w idle h cs e out clear =
    rw (out, clear, ◌>>=◌, clear) (read_reply build (sent c w) p held chunks r rest idle h cs e)
