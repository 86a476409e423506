-- ===== src/Client/SyncApi.antt =====
-- src/redisclient/RedisSyncClient.cpp and PipeLine.cpp: the public operations of the synchronous
-- client.
pub mod Pipelines
use redisclient_libary.Common.{
  Bytes, Bool, true, false, List, [], ◌∷◌, ◌++◌, ◌||◌, codes, none, if◌then◌else◌, Build,
}
use redisclient_libary.Value.{RedisValue, null_value}
use redisclient_libary.Parser.{new_parser}
use redisclient_libary.Buffer.{RedisBuffer, text}
use redisclient_libary.Socket.{SendAttempt, RecvAttempt}
use redisclient_libary.Client.Sync.{OnError, Sync, Run, report, do_sync_command, do_sync_commands}
use redisclient_libary.Client.{
  State, unconnected, closed, state_name, is_connected_state, is_subscribed_state, ErrorHandler,
  default_handler, returned, thrown, ◌>>=◌, ◌>>◌, return, require, throw_if_error,
}

-- The constructor.
abbrev pub new_client : List SendAttempt → List RecvAttempt → Sync
new_client sends receives = record {
  parser = new_parser;
  buf = [];
  state = unconnected;
  error_handler = default_handler;
  ec = none;
  wire = [];
  sends = sends;
  receives = receives;
  messages = [];
}

unfoldable pub get_state : Run State
get_state c = returned c.state c

unfoldable pub is_connected : Run Bool
is_connected c = returned (is_connected_state c.state || is_subscribed_state c.state) c

-- `disConnected`, and what `close` does that shows here.
unfoldable pub dis_connected : Run Unit
dis_connected c = returned tt (record c { state = closed })

unfoldable pub install_error_handler : ErrorHandler → Run Unit
install_error_handler handler c = returned tt (record c { error_handler = handler })

module _ ⦃errors : OnError⦄ where
  unfoldable pub statement_valid : Build → Run Bool
  unfolding report
  statement_valid build c =
      (require build (is_connected_state c.state) >> λ d.
      if is_connected_state d.state
      then returned true d
      else (report (codes "RedisClient::command called with invalid state " ++ state_name d.state)
            >> return false)
          d)
        c

  -- A command that is only run in a valid state.
  unfoldable pub guarded : Build → Run RedisValue → Run RedisValue
  unfolding statement_valid
  guarded build run = do valid ← statement_valid build; if valid then run else return null_value

  -- `command` and `pipelined` with the caller's error code.
  unfoldable pub command_ec : Build → Bytes → List RedisBuffer → Run RedisValue
  unfolding guarded do_sync_command
  command_ec build cmd args = guarded build (do_sync_command build (text cmd ∷ args))

  unfoldable pub pipelined_ec : Build → List (List RedisBuffer) → Run RedisValue
  unfolding guarded do_sync_commands
  pipelined_ec build commands = guarded build (do_sync_commands build commands)

-- The same with an error code of their own, which is thrown if it is set.
unfoldable pub throwing : Run RedisValue → Run RedisValue
unfolding throw_if_error
throwing run c = (run >>= λ v d. (throw_if_error d.ec >> return v) d) (record c { ec = none })

module _ ⦃errors : OnError⦄ where
  unfoldable pub command : Build → Bytes → List RedisBuffer → Run RedisValue
  unfolding throwing command_ec
  command build cmd args = throwing (command_ec build cmd args)

  unfoldable pub pipelined : Build → List (List RedisBuffer) → Run RedisValue
  unfolding throwing pipelined_ec
  pipelined build commands = throwing (pipelined_ec build commands)

-- A pipeline's commands, as far as they are given; `finish` moves them out.
abbrev pub Pipeline : Type 0
Pipeline = List (List RedisBuffer)

-- `pipelined` without commands.
abbrev pub new_pipeline : Pipeline
new_pipeline = []

abbrev pub add_command : Bytes → List RedisBuffer → Pipeline → Pipeline
add_command cmd args commands = commands ++ (text cmd ∷ args) ∷ []

module _ ⦃errors : OnError⦄ where
  unfoldable pub finish : Build → Pipeline → Run (RedisValue × Pipeline)
  unfolding pipelined
  finish build commands = do v ← pipelined build commands; return (v, [])

  unfoldable pub finish_ec : Build → Pipeline → Run (RedisValue × Pipeline)
  unfolding pipelined_ec
  finish_ec build commands = do v ← pipelined_ec build commands; return (v, [])
