-- ===== src/Examples/AsyncSetGet.antt =====
-- examples/async_set_get.cpp: three commands, each of which is given in the handler of the one before.
-- Its marks are what it writes, all to the error output, and the call of `stop`.
pub mod Posting
pub mod Turns
pub mod Stages
pub mod Interleavings
pub mod Outcomes
use redisclient_libary.Common.{Bytes, [], ◌∷◌, ◌++◌, codes, Option, none, some, Build}
use redisclient_libary.Value.{to_text}
use redisclient_libary.Buffer.{text}
use redisclient_libary.Socket.{ErrorCode}
use redisclient_libary.Client.{returned, ◌>>◌, return}
use redisclient_libary.Client.Async.{OnError, Run, Calls, reply, code}
use redisclient_libary.Client.Async.Loops.{handle_async_connect}
use redisclient_libary.Client.AsyncApi.{connect, command}

-- The handlers that the program binds, a line that it writes, and `ioService.stop()`.
pub data Action : Type 0 where
  on_connected on_set on_get on_del : Action
  prints : Bytes → Action
  stops : Action

abbrev pub redis_key : Bytes
redis_key = codes "unique-redis-key-example"

abbrev pub redis_value : Bytes
redis_value = codes "unique-redis-value"

abbrev pub mark : Action → Run Action Unit
mark action c = returned tt (record c { marks = c.marks ++ action ∷ [] })

module _ ⦃errors : OnError Action⦄ (build : Build) (describe : ErrorCode → Bytes) where
  -- `handleConnected`
  unfoldable pub handle_connected : Option ErrorCode → Run Action Unit
  unfolding command
  handle_connected none =
      command build (codes "SET") (text redis_key ∷ text redis_value ∷ []) on_set
  handle_connected (some e) = mark (prints (codes "Can't connect to redis: " ++ describe e))

  -- What the handlers do.
  unfoldable pub set_get_call : Calls Action
  unfolding handle_connected command to_text
  set_get_call on_connected (code ec) = handle_connected ec
  set_get_call on_set (reply v) = do
    mark (prints (codes "SET: " ++ to_text v))
    command build (codes "GET") (text redis_key ∷ []) on_get
  set_get_call on_get (reply v) = do
    mark (prints (codes "GET: " ++ to_text v))
    command build (codes "DEL") (text redis_key ∷ []) on_del
  set_get_call on_del (reply v) = mark stops
  set_get_call _ _ = return tt

  -- `main`, up to `run`.
  unfoldable pub async_set_get : Run Action Unit
  unfolding connect set_get_call
  async_set_get = connect set_get_call on_connected >> return tt

  -- `ec.message()`
  abbrev pub text_of : Option ErrorCode → Bytes
  text_of none = []
  text_of (some e) = describe e

  -- `main` and a connection that is made.
  abbrev pub connecting_well : Run Action Unit
  connecting_well = async_set_get >> handle_async_connect set_get_call none on_connected
