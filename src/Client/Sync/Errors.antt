-- ===== src/Client/Sync/Errors.antt =====
-- The synchronous commands behind an error.
use redisclient_libary.Common.{Bytes, List, All, some, Build, ◌≡◌, inl, inr, ap}
use redisclient_libary.Value.{null_value}
use redisclient_libary.Buffer.{RedisBuffer}
use redisclient_libary.Command.{make_command}
use redisclient_libary.Socket.{ErrorCode, Written, socket_write}
use redisclient_libary.Socket.Transfer.{IsSend, Outcome, socket_write-Outcome}
use redisclient_libary.Client.{returned, ◌>>=◌, ◌>>◌}
use redisclient_libary.Client.Sync.{OnError, Sync, write_buffer, unless_failed, do_sync_command}
use redisclient_libary.Client.Sync.Replies.{sent}

-- A code that was set before is set behind the loop.
Outcome-set :
    (x : ErrorCode) (buffer : Bytes) (w : Written)
    → Outcome (some x) buffer w
    → (e : ErrorCode) × (w.ec ≡ some e)
Outcome-set x buffer w (_, _, inl (_, u)) = (x, u)
Outcome-set x buffer w (_, _, inr (_, e)) = e

do_sync_command-failed :
    ⦃errors : OnError⦄ (build : Build) (c : Sync) (command : List RedisBuffer) (x e : ErrorCode)
    (w : Written)
    → c.ec ≡ some x
    → socket_write c.sends (some x) (make_command command) ≡ some w
    → w.ec ≡ some e
    → do_sync_command build command c ≡ returned null_value (record (sent c w) { ec = some e })
unfolding do_sync_command write_buffer unless_failed
do_sync_command-failed build c command x e w stale out set =
    rw (◌>>◌, stale, out, ◌>>=◌, set)
      (ap (λ y. returned null_value (record (sent c w) { ec = y })) set)

-- With an error code that an earlier command left set, `doSyncCommand` sends the command and reads no
-- response to it: it returns null, with a code that is set, and the parser, the buffer and what is to
-- be received are as before. `send` is taken to accept no more than it is offered.
pub do_sync_command-stale :
    ⦃errors : OnError⦄ (build : Build) (c : Sync) (command : List RedisBuffer) (x : ErrorCode)
    (w : Written)
    → c.ec ≡ some x
    → All IsSend c.sends
    → socket_write c.sends (some x) (make_command command) ≡ some w
    → (e : ErrorCode) × (do_sync_command build command c
        ≡ returned null_value (record (sent c w) { ec = some e }))
do_sync_command-stale build c command x w stale h out =
    let (e, set) =
      Outcome-set x (make_command command) w
        (socket_write-Outcome c.sends (some x) (make_command command) w h out) in
    (e, do_sync_command-failed build c command x e w stale out set)
