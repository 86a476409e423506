-- ===== src/Examples/Serving.antt =====
-- A server that prints a reply to each request of a program, and a system that sends the requests.
use redisclient_libary.Common.{
  Bytes, flatten, List, [], ◌∷◌, ◌++◌, map, All, none, some, Build, ◌≡◌, refl, ap, ◌∙◌,
}
use redisclient_libary.Parser.Print.{Reply, IsSendable, print, meaning}
use redisclient_libary.Parser.Delivery.{IsIdle}
use redisclient_libary.Buffer.{RedisBuffer, text}
use redisclient_libary.Command.{make_command}
use redisclient_libary.Socket.{SendAttempt, Written, socket_write}
use redisclient_libary.Client.{connected, returned}
use redisclient_libary.Client.Sync.{OnError, Sync}
use redisclient_libary.Client.Sync.Listening.{IsChunk, arriving, listening}
use redisclient_libary.Client.Sync.Replies.{sent}
use redisclient_libary.Client.SyncApi.{command, command_ec}
use redisclient_libary.Client.SyncApi.Pipelines.{command-Replied, command_ec-Replied}

-- The requests go out one behind the other, each whole and without an error.
abbrev pub Sends : List SendAttempt → List (List RedisBuffer) → Type 0
Sends attempts [] = Unit
Sends attempts (items ∷ more) =
    (w : Written) × (socket_write attempts none (make_command items) ≡ some w)
    × (w.ec ≡ none)
    × (w.wire ≡ make_command items)
    × Sends w.attempts more

-- A connected client between replies, to which these bytes are still to come, in chunks.
pub record IsServed (c : Sync) (stream : Bytes) : Type 0 where
  pub on : c.state ≡ connected
  pub idle : IsIdle c.parser
  pub chunks : List Bytes
  pub to_come : c.receives ≡ map arriving chunks
  pub chunked : All IsChunk chunks
  pub stream_is : c.buf ++ flatten chunks ≡ stream

module _ ⦃errors : OnError⦄ (build : Build) where
  -- What a command has got, and the client behind it.
  pub record Served (c : Sync) (cmd : Bytes) (args : List RedisBuffer) (r : Reply) (rest : Bytes)
      (more : List (List RedisBuffer)) : Type 0 where
    pub client : Sync
    pub answer : command build cmd args c ≡ returned (meaning r) client
    pub served : IsServed client rest
    pub sends : Sends client.sends more
    pub wire : client.wire ≡ c.wire ++ make_command (text cmd ∷ args)

  -- The same for the operation with the caller's error code.
  pub record ServedCode (c : Sync) (cmd : Bytes) (args : List RedisBuffer) (r : Reply)
      (rest : Bytes) (more : List (List RedisBuffer)) : Type 0 where
    pub client : Sync
    pub answer : command_ec build cmd args c ≡ returned (meaning r) client
    pub clear : client.ec ≡ none
    pub served : IsServed client rest
    pub sends : Sends client.sends more

  pub command_ec-Served :
      (c : Sync) (cmd : Bytes) (args : List RedisBuffer) (r : Reply) (rest : Bytes)
      (more : List (List RedisBuffer))
      → c.ec ≡ none
      → IsServed c (print r rest)
      → IsSendable r
      → Sends c.sends ((text cmd ∷ args) ∷ more)
      → ServedCode c cmd args r rest more
  command_ec-Served c cmd args r rest more none_left v h (w, out, clear, whole, others) =
      let d =
        command_ec-Replied build c cmd args r c.parser c.buf v.chunks rest w v.on v.idle h v.chunked
          v.stream_is out clear in
      record {
        client = listening (sent c w) d.parser d.buf d.left;
        answer =
            ap (λ x. command_ec build cmd args (record c { receives = x })) v.to_come
            ∙ ap
                (λ x.
                  command_ec build cmd args (record c { receives = map arriving v.chunks; ec = x }))
                none_left
            ∙ d.answer;
        clear = refl;
        served = record {
          on = v.on;
          idle = d.idle;
          chunks = d.left;
          to_come = refl;
          chunked = d.chunked;
          stream_is = d.behind;
        };
        sends = others;
      }

  -- The error code that an earlier command left is not looked at.
  command-clear :
      (c : Sync) (cmd : Bytes) (args : List RedisBuffer) (chunks : List Bytes)
      → c.receives ≡ map arriving chunks
      → command build cmd args c ≡ command build cmd args (listening c c.parser c.buf chunks)
  unfolding command
  command-clear c cmd args chunks e = ap (λ x. command build cmd args (record c { receives = x })) e

  pub command-Served :
      (c : Sync) (cmd : Bytes) (args : List RedisBuffer) (r : Reply) (rest : Bytes)
      (more : List (List RedisBuffer))
      → IsServed c (print r rest)
      → IsSendable r
      → Sends c.sends ((text cmd ∷ args) ∷ more)
      → Served c cmd args r rest more
  command-Served c cmd args r rest more v h (w, out, clear, whole, others) =
      let d =
        command-Replied build c cmd args r c.parser c.buf v.chunks rest w v.on v.idle h v.chunked
          v.stream_is out clear in
      record {
        client = listening (sent c w) d.parser d.buf d.left;
        answer = command-clear c cmd args v.chunks v.to_come ∙ d.answer;
        served = record {
          on = v.on;
          idle = d.idle;
          chunks = d.left;
          to_come = refl;
          chunked = d.chunked;
          stream_is = d.behind;
        };
        sends = others;
        wire = ap (◌++◌ c.wire) whole;
      }
