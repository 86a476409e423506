-- ===== src/Client/AsyncApi/Events.antt =====
-- src/redisclient/RedisAsyncClient.cpp and RedisClientImpl.cpp: everything that can happen to an
-- asynchronous client, as one step each. The caller uses an operation, the strand runs a task, or the
-- system reports the end of a connection, a write or a read.
use redisclient_libary.Common.{Bytes, List, [], ◌∷◌, ◌≤◌, Option, Build, ◌≡◌}
use redisclient_libary.Buffer.{RedisBuffer}
use redisclient_libary.Socket.{ErrorCode}
use redisclient_libary.Client.{ErrorHandler, Exception, returned, thrown, ◌>>◌, return}
use redisclient_libary.Client.Async.{OnError, Async, Run, Calls}
use redisclient_libary.Client.Async.Loops.{write_ends, read_ends, handle_async_connect}
use redisclient_libary.Client.AsyncApi.{
  Handle, new_client, connect, connect_local, disconnect, install_error_handler, command, publish,
  subscribe_channel, psubscribe, unsubscribe_handle, punsubscribe, single_shot,
  single_shot_psubscribe, run_task,
}

pub data Event (H : Type 0) : Type 0 where
  connects connects_local : H → Event H
  connect_ends : Option ErrorCode → H → Event H
  disconnects : Event H
  installs : ErrorHandler → Event H
  commands : Bytes → List RedisBuffer → H → Event H
  publishes : Bytes → RedisBuffer → H → Event H
  subscribes psubscribes single_shots single_shot_patterns : Bytes → H → H → Event H
  unsubscribes punsubscribes : Handle → Event H
  runs_task : Event H
  ends_write : Option ErrorCode → Event H
  ends_read : Option ErrorCode → Bytes → Event H

-- The results of the operations are the caller's, and left out.
abbrev ignored : {H A : Type 0} → Run H A → Run H Unit
ignored run = run >> return tt

module _ {H : Type 0} ⦃errors : OnError H⦄ (build : Build) (describe : Option ErrorCode → Bytes)
    (call : Calls H) (dummy : H) where
  unfoldable pub occur : Event H → Run H Unit
  occur (connects handler) = ignored (connect call handler)
  occur (connects_local handler) = ignored (connect_local call handler)
  occur (connect_ends ec handler) = handle_async_connect call ec handler
  occur disconnects = disconnect
  occur (installs handler) = install_error_handler handler
  occur (commands cmd args handler) = command build cmd args handler
  occur (publishes channel msg handler) = publish build channel msg handler
  occur (subscribes channel msg_handler handler) =
      ignored (subscribe_channel build channel msg_handler handler)
  occur (psubscribes pattern msg_handler handler) =
      ignored (psubscribe build pattern msg_handler handler)
  occur (single_shots channel msg_handler handler) = single_shot build channel msg_handler handler
  occur (single_shot_patterns pattern msg_handler handler) =
      single_shot_psubscribe build pattern msg_handler handler
  occur (unsubscribes handle) = unsubscribe_handle build dummy handle
  occur (punsubscribes handle) = punsubscribe build dummy handle
  occur runs_task = run_task describe call
  occur (ends_write ec) = write_ends describe ec
  occur (ends_read ec chunk) = read_ends build describe call ec chunk

  -- The system ends a write or a read that was begun; connections are not counted.
  abbrev pub CanOccur : Event H → Async H → Type 0
  CanOccur (ends_write ec) c = 1 ≤ c.writes
  CanOccur (ends_read ec chunk) c = 1 ≤ c.reads
  CanOccur _ c = Unit

  -- The clients that events lead to, the last one in front: each returns, or throws an exception that
  -- its caller catches.
  pub data Reachable : List (Event H) → Async H → Type 0 where
    new : Reachable [] new_client
    returns :
        {events : List (Event H)} {c d : Async H} (e : Event H)
        → Reachable events c
        → CanOccur e c
        → occur e c ≡ returned tt d
        → Reachable (e ∷ events) d
    throws :
        {events : List (Event H)} {c d : Async H} (e : Event H) (x : Exception)
        → Reachable events c
        → CanOccur e c
        → occur e c ≡ thrown x d
        → Reachable (e ∷ events) d
