-- ===== src/Examples/AsyncSetGet/Posting.antt =====
-- What the handlers of async_set_get.cpp do to the client: the command that each gives, and its line.
use redisclient_libary.Common.{
  Bytes, List, [], ◌∷◌, ◌++◌, append-nil, none, some, codes, Build, ◌≡◌, refl, ap, ◌∙◌, sym,
}
use redisclient_libary.Value.{to_text}
use redisclient_libary.Buffer.{RedisBuffer, text}
use redisclient_libary.Command.{make_command}
use redisclient_libary.Socket.{ErrorCode}
use redisclient_libary.Client.{connected, Ended, returned, ◌>>=◌, ◌>>◌}
use redisclient_libary.Client.Async.{
  invoke, process_message, OnError, Async, Argument, Task, reply, message, code, command_task,
}
use redisclient_libary.Client.Async.Answers.{IsPosting}
use redisclient_libary.Client.AsyncApi.{command, connect, new_client}
use redisclient_libary.Client.Async.Chunks.{reading}
use redisclient_libary.Client.Async.Loops.{handle_async_connect}
use redisclient_libary.Parser.{new_parser}
use redisclient_libary.Client.AsyncApi.Commands.{command-connected}
use redisclient_libary.Examples.AsyncSetGet.{
  async_set_get, connecting_well, Action, on_connected, on_set, on_get, on_del, prints, stops,
  redis_key, redis_value, handle_connected, set_get_call,
}

abbrev pub set_items : List RedisBuffer
set_items = text (codes "SET") ∷ text redis_key ∷ text redis_value ∷ []

abbrev pub get_items : List RedisBuffer
get_items = text (codes "GET") ∷ text redis_key ∷ []

abbrev pub del_items : List RedisBuffer
del_items = text (codes "DEL") ∷ text redis_key ∷ []

-- The command that a handler gives.
abbrev pub asked : Action → Argument → List (Task Action)
asked on_connected (code none) = command_task (make_command set_items) on_set ∷ []
asked on_set (reply v) = command_task (make_command get_items) on_get ∷ []
asked on_get (reply v) = command_task (make_command del_items) on_del ∷ []
asked _ _ = []

-- What it writes, and whether it stops the program.
abbrev pub shown : (ErrorCode → Bytes) → Action → Argument → List Action
shown describe on_connected (code (some e)) =
    prints (codes "Can't connect to redis: " ++ describe e) ∷ []
shown describe on_set (reply v) = prints (codes "SET: " ++ to_text v) ∷ []
shown describe on_get (reply v) = prints (codes "GET: " ++ to_text v) ∷ []
shown describe on_del (reply v) = stops ∷ []
shown describe _ _ = []

-- A handler that does nothing.
idle_call :
    (c : Async Action)
    → ◌≡◌ {A = Ended (Async Action) (Unit {0})}
        (returned tt c)
        (returned tt (record c { tasks = c.tasks ++ []; marks = c.marks ++ [] }))
idle_call c =
    ap (λ x. returned tt (record c { tasks = x })) (sym (append-nil c.tasks))
    ∙ ap (λ x. returned tt (record c { tasks = c.tasks ++ []; marks = x }))
        (sym (append-nil c.marks))

module _ ⦃errors : OnError Action⦄ (build : Build) (describe : ErrorCode → Bytes) where
  -- A command that is given behind a mark.
  pub giving :
      (cmd : Bytes) (args : List RedisBuffer) (h : Action) (c : Async Action) (marks : List Action)
      → command build cmd args h (record c { state = connected; marks = marks })
        ≡ returned tt (record c {
          state = connected;
          tasks = c.tasks ++ command_task (make_command (text cmd ∷ args)) h ∷ [];
          marks = marks;
        })
  giving cmd args h c marks =
      command-connected build (record { cmd = cmd; args = args; handler = h })
        (record c { marks = marks }) c.tasks

  pub set_get_call-IsPosting : IsPosting (set_get_call build describe) asked (shown describe)
  unfolding set_get_call handle_connected
  set_get_call-IsPosting on_connected (code none) c =
      giving (codes "SET") (text redis_key ∷ text redis_value ∷ []) on_set c c.marks
      ∙ ap
          (λ x. returned tt (record c {
            state = connected;
            tasks = c.tasks ++ command_task (make_command set_items) on_set ∷ [];
            marks = x;
          }))
          (sym (append-nil c.marks))
  set_get_call-IsPosting on_connected (code (some e)) c =
      ap
        (λ x. returned tt (record c {
          state = connected;
          tasks = x;
          marks = c.marks ++ prints (codes "Can't connect to redis: " ++ describe e) ∷ [];
        }))
        (sym (append-nil c.tasks))
  set_get_call-IsPosting on_connected (reply v) c = idle_call (record c { state = connected })
  set_get_call-IsPosting on_connected (message m) c = idle_call (record c { state = connected })
  set_get_call-IsPosting on_set (reply v) c =
      rw
        (
          ◌>>◌,
          ◌>>=◌,
          giving (codes "GET") (text redis_key ∷ []) on_get c
              (c.marks ++ prints (codes "SET: " ++ to_text v) ∷ []),
        )
        refl
  set_get_call-IsPosting on_set (message m) c = idle_call (record c { state = connected })
  set_get_call-IsPosting on_set (code ec) c = idle_call (record c { state = connected })
  set_get_call-IsPosting on_get (reply v) c =
      rw
        (
          ◌>>◌,
          ◌>>=◌,
          giving (codes "DEL") (text redis_key ∷ []) on_del c
              (c.marks ++ prints (codes "GET: " ++ to_text v) ∷ []),
        )
        refl
  set_get_call-IsPosting on_get (message m) c = idle_call (record c { state = connected })
  set_get_call-IsPosting on_get (code ec) c = idle_call (record c { state = connected })
  set_get_call-IsPosting on_del (reply v) c =
      ap
        (λ x.
          returned tt (record c { state = connected; tasks = x; marks = c.marks ++ stops ∷ [] }))
        (sym (append-nil c.tasks))
  set_get_call-IsPosting on_del (message m) c = idle_call (record c { state = connected })
  set_get_call-IsPosting on_del (code ec) c = idle_call (record c { state = connected })
  set_get_call-IsPosting (prints s) x c = idle_call (record c { state = connected })
  set_get_call-IsPosting stops x c = idle_call (record c { state = connected })

  pub connecting_well-between :
      connecting_well build describe new_client
      ≡ returned tt (
          reading new_client new_parser []
            ((on_connected, code none) ∷ [])
            (command_task (make_command set_items) on_set ∷ [])
            [])
  unfolding async_set_get connect handle_async_connect invoke process_message set_get_call
      handle_connected
  connecting_well-between =
      rw
        (
          ◌>>◌,
          ◌>>=◌,
          giving (codes "SET") (text redis_key ∷ text redis_value ∷ []) on_set
              (record new_client { calls = (on_connected, code none) ∷ [] }) [],
        )
        refl
