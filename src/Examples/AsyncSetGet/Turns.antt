-- ===== src/Examples/AsyncSetGet/Turns.antt =====
-- async_set_get.cpp: the three commands, and the runs of the program with the system and a server.
use redisclient_libary.Common.{Bytes, List, [], ◌∷◌, ◌++◌, ◌<◌, length, none, codes, Build, ◌≡◌}
use redisclient_libary.Value.{to_text}
use redisclient_libary.Parser.Print.{Reply, print, meaning}
use redisclient_libary.Command.{make_command}
use redisclient_libary.Socket.{ErrorCode}
use redisclient_libary.Client.{returned}
use redisclient_libary.Client.Async.{OnError, Async, Task, command_task}
use redisclient_libary.Client.Async.Loops.{write_ends, read_ends}
use redisclient_libary.Client.AsyncApi.{new_client, run_task}
use redisclient_libary.Examples.AsyncSetGet.{
  Action, text_of, connecting_well, on_set, on_get, on_del, prints, stops, set_get_call,
}
use redisclient_libary.Examples.AsyncSetGet.Posting.{set_items, get_items, del_items}

-- Which of the commands is given next, or is to be answered.
pub data Turn : Type 0 where
  set_turn get_turn del_turn : Turn

abbrev pub handler : Turn → Action
handler set_turn = on_set
handler get_turn = on_get
handler del_turn = on_del

abbrev pub request : Turn → Bytes
request set_turn = make_command set_items
request get_turn = make_command get_items
request del_turn = make_command del_items

abbrev pub turn_task : Turn → Task Action
turn_task t = command_task (request t) (handler t)

-- The requests in front of that of a turn, and with it.
abbrev pub sent_before : Turn → Bytes
sent_before set_turn = []
sent_before get_turn = request set_turn
sent_before del_turn = request set_turn ++ request get_turn

abbrev pub sent_with : Turn → Bytes
sent_with t = sent_before t ++ request t

module _ (r r' r'' : Reply) where
  abbrev pub reply_to : Turn → Reply
  reply_to set_turn = r
  reply_to get_turn = r'
  reply_to del_turn = r''

  -- The replies to the requests in front of that of a turn, and with its own.
  abbrev pub got_before : Turn → Bytes
  got_before set_turn = []
  got_before get_turn = print r []
  got_before del_turn = print r [] ++ print r' []

  abbrev pub got_with : Turn → Bytes
  got_with t = got_before t ++ print (reply_to t) []

  -- What the program has shown in front of a turn, and in the end.
  abbrev pub shown_before : Turn → List Action
  shown_before set_turn = []
  shown_before get_turn = prints (codes "SET: " ++ to_text (meaning r)) ∷ []
  shown_before del_turn =
      prints (codes "SET: " ++ to_text (meaning r))
      ∷ prints (codes "GET: " ++ to_text (meaning r'))
      ∷ []

  abbrev pub all_shown : List Action
  all_shown = shown_before del_turn ++ stops ∷ []

  -- A server that has printed the replies to the requests that it has got, and nothing else.
  pub record IsAnswering (server : Bytes → Bytes) : Type 0 where
    pub silent : server [] ≡ []
    pub answers : (t : Turn) → server (sent_with t) ≡ got_with t

-- The runs of the program, with what was read so far: a connection is made, and then the strand runs a
-- task, a write ends, or bytes arrive of those that the server has printed by then, in any order.
pub data Runs ⦃errors : OnError Action⦄ (build : Build) (describe : ErrorCode → Bytes)
    (server : Bytes → Bytes) : Async Action → Bytes → Type 0 where
  starts :
      {c : Async Action}
      → connecting_well build describe new_client ≡ returned tt c
      → Runs build describe server c []
  task_runs :
      {c d : Async Action} {got : Bytes}
      → Runs build describe server c got
      → run_task (text_of build describe) (set_get_call build describe) c ≡ returned tt d
      → Runs build describe server d got
  write_is_over :
      {c d : Async Action} {got : Bytes}
      → Runs build describe server c got
      → 0 < c.writes
      → write_ends (text_of build describe) none c ≡ returned tt d
      → Runs build describe server d got
  bytes_arrive :
      {c d : Async Action} {got : Bytes} (chunk more : Bytes)
      → Runs build describe server c got
      → 0 < length chunk
      → got ++ (chunk ++ more) ≡ server c.wire
      → read_ends build (text_of build describe) (set_get_call build describe) none chunk c
        ≡ returned tt d
      → Runs build describe server d (got ++ chunk)
