-- ===== src/Client/AsyncApi/Reconnect.antt =====
-- What a connection leaves to the next one.
use redisclient_libary.Common.{
  Bytes, List, [], ◌∷◌, ◌++◌, append-nil, flatten, ◌+◌, ◌-◌, ◌≤◌, length, All, Option, none, some,
  Build, ◌≡◌, refl, ap, ◌∙◌, sym,
}
use redisclient_libary.Parser.{new_parser}
use redisclient_libary.Parser.Print.{Reply, IsSendable, print, meaning}
use redisclient_libary.Socket.{ErrorCode, system}
use redisclient_libary.Client.{connected, installed, returned, ◌>>=◌, ◌>>◌}
use redisclient_libary.Client.Async.{
  OnError, Async, Run, Calls, code, reply, report, invoke, process_message, close, ecanceled,
}
use redisclient_libary.Client.Async.Loops.{
  async_read, async_write, write_ends, read_ends, do_async_command, handle_async_connect,
}
use redisclient_libary.Client.Async.Answers.{IsQuiet, IsPosting}
use redisclient_libary.Client.Async.Chunks.{feed, reading, feed-Fed}
use redisclient_libary.Client.AsyncApi.{connect, disconnect}

module _ {H : Type 0} ⦃errors : OnError H⦄ (describe : Option ErrorCode → Bytes) (call : Calls H)
    (quiet : IsQuiet call)
    (silent : (note : Bytes) (c : Async H) → errors.on_error note c ≡ returned tt c) where
  -- A client is disconnected while a write and a read are under way, which the system ends with
  -- `operation_aborted`. It is connected again without an error, a command is run, and then bytes
  -- arrive in chunks.
  abbrev pub reconnect : Build → H → Bytes → H → List Bytes → Run H Unit
  reconnect build handler b h chunks =
      disconnect
      >> write_ends describe (some (system ecanceled))
      >> read_ends build describe call (some (system ecanceled)) []
      >> connect call handler
      >> handle_async_connect call none handler
      >> do_async_command describe b h
      >> feed build describe call chunks

  -- A client with an error handler, a read under way, and requests that are queued.
  abbrev pub busy_client : Async H → Bytes → List Bytes → Async H
  busy_client c x queued = record c {
    error_handler = installed;
    reads = 1;
    data_queued = x ∷ queued;
  }

  -- The client with the write of the next connection under way.
  abbrev reopened : Async H → H → Bytes → List Bytes → Bytes → Async H
  reopened c handler x queued b = record c {
    error_handler = installed;
    data_written = x ∷ (queued ++ b ∷ []);
    data_queued = [];
    msg_handlers = [];
    writes = c.writes - 1 + 1;
    wire = c.wire ++ (x ++ flatten (queued ++ b ∷ []));
    messages = c.messages ++ describe (some (system ecanceled)) ∷ [];
  }

  reopens :
      (build : Build) (c : Async H) (handler h : H) (x : Bytes) (queued : List Bytes) (b : Bytes)
      (chunks : List Bytes)
      → reconnect build handler b h chunks (busy_client c x queued)
        ≡ feed build describe call chunks (
            reading
              (reopened c handler x queued b)
              new_parser
              (h ∷ [])
              (c.calls ++ (handler, code none) ∷ [])
              c.tasks
              c.marks)
  unfolding disconnect close write_ends read_ends async_read async_write report connect
      handle_async_connect do_async_command process_message invoke
  reopens build c handler h x queued b chunks = rw (◌>>◌, ◌>>=◌, silent, quiet) refl

  quiet-IsPosting : IsPosting call (λ h x. []) (λ h x. [])
  quiet-IsPosting h x c =
      quiet h x (record c { state = connected })
      ∙ ap (λ t. returned tt (record c { state = connected; tasks = t })) (sym (append-nil c.tasks))
      ∙ ap (λ m. returned tt (record c { state = connected; tasks = c.tasks ++ []; marks = m }))
          (sym (append-nil c.marks))

  -- A client is disconnected while requests are queued, and the write and the read under way end as
  -- aborted. It is connected again without an error, and given a command. The first of the requests
  -- that were left over goes out first on the new connection, and the others in front of the
  -- command. A reply to the first of them then comes, in any chunks: the handler of the command is
  -- called with it, and no handler waits for the others. The reply is a line of printable ASCII, an
  -- integer other than LONG_MIN, nil, or a payload of any bytes. This is for handlers that do not
  -- use the client, and an installed error handler that does nothing.
  pub reconnect_stale :
      (build : Build) (c : Async H) (handler h : H) (x : Bytes) (queued : List Bytes) (b : Bytes)
      (r : Reply) (chunks : List Bytes)
      → IsSendable r
      → All (λ chunk. 1 ≤ length chunk) chunks
      → flatten chunks ≡ print r []
      → (d : Async H) × (reconnect build handler b h chunks (busy_client c x queued)
          ≡ returned tt d)
        × (d.wire ≡ c.wire ++ (x ++ flatten (queued ++ b ∷ [])))
        × (d.calls ≡ (c.calls ++ (handler, code none) ∷ []) ++ (h, reply (meaning r)) ∷ [])
        × (d.handlers ≡ [])
  reconnect_stale build c handler h x queued b r chunks s cut whole =
      let calls = c.calls ++ (handler, code none) ∷ [] in
      let d =
        feed-Fed call (λ h x. []) (λ h x. []) quiet-IsPosting (reopened c handler x queued b) build
          describe chunks (r ∷ []) (h ∷ []) [] new_parser calls c.tasks c.marks cut whole refl
          (s, tt) (record { no_state = refl; no_array = refl }) in
      (
        reading (reopened c handler x queued b) d.parser [] (calls ++ (h, reply (meaning r)) ∷ [])
            (c.tasks ++ []) (c.marks ++ []),
        reopens build c handler h x queued b chunks ∙ d.answer,
        refl,
        refl,
        refl,
      )
