-- ===== src/Client/Async/Loops.antt =====
-- src/redisclient/RedisClientImpl.cpp: what runs when a connection, a write or a read has ended, and
-- `doAsyncCommand`, whose definition stands there under the name of `doSyncCommand`.
use redisclient_libary.Common.{
  Bytes, [], ◌∷◌, ◌++◌, flatten, ℕ, zero, suc, ◌+◌, ◌-◌, length, drop, codes, Option, none, some,
  if◌then◌else◌, Build, out_of_fuel,
}
use redisclient_libary.Parser.{completed, uncompleted, error, Parsed, parse, result}
use redisclient_libary.Socket.{ErrorCode}
use redisclient_libary.Client.{unconnected, connected, returned, crashed, ◌>>=◌, ◌>>◌, lift}
use redisclient_libary.Client.Async.{
  OnError, Run, Calls, code, report, invoke, process_message, do_process_message, is_aborted,
}

module _ {H : Type 0} ⦃errors : OnError H⦄ where
  -- `ec.message()` is the argument.
  unfoldable pub async_write : (Option ErrorCode → Bytes) → Option ErrorCode → Run H Unit
  async_write text ec c =
      let cleared = record c { data_written = [] } in
      elim ec [
        | some e ↦ report (text (some e)) cleared
        | none ↦ elim c.data_queued [
          | [] ↦ returned tt cleared
          | first ∷ others ↦ returned tt (record c {
            data_queued = [];
            data_written = first ∷ others;
            writes = c.writes + 1;
            wire = c.wire ++ flatten (first ∷ others);
          })
        ]
      ]

  -- The end of a write, which the system reports once.
  unfoldable pub write_ends : (Option ErrorCode → Bytes) → Option ErrorCode → Run H Unit
  write_ends text ec c = async_write text ec (record c { writes = c.writes - 1 })

  unfoldable pub do_async_command : (Option ErrorCode → Bytes) → Bytes → H → Run H Unit
  do_async_command text buff handler c =
      let queued = record c {
        handlers = c.handlers ++ handler ∷ [];
        data_queued = c.data_queued ++ buff ∷ [];
      } in
      elim c.data_written [ [] ↦ async_write text none queued | _ ∷ _ ↦ returned tt queued ]

  -- What a call of `parse` leads to. The rest of the chunk is read behind a reply.
  unfoldable pub read_round : Calls H → Parsed → Run H Unit → Run H Unit
  read_round call r again c = elim r.result [
    | completed ↦
        let (v, q) = result r.parser in
        (do_process_message call v >> again) (record c { parser = q })
    | uncompleted ↦ process_message (record c { parser = r.parser })
    | error ↦ report (codes "[RedisClient] Parser error") (record c { parser = r.parser })
  ]

  -- `for (pos = 0; pos < size;)`. The list is the bytes at `pos` up to `size`; each round but the
  -- last reads one at least, so that `size` rounds are enough.
  unfoldable pub read_loop : Build → Calls H → ℕ → Bytes → Run H Unit
  read_loop build call fuel [] c = process_message c
  read_loop build call zero (b ∷ bs) c = crashed out_of_fuel
  read_loop build call (suc fuel) (b ∷ bs) c =
      (lift (parse build c.parser (b ∷ bs)) >>= λ r.
      read_round call r (read_loop build call fuel (drop r.consumed (b ∷ bs))))
        c

  -- The chunk is the first `size` bytes of `buf`.
  unfoldable pub async_read :
      Build → (Option ErrorCode → Bytes) → Calls H → Option ErrorCode → Bytes → Run H Unit
  async_read build text call (some e) chunk c =
      if is_aborted (some e) then returned tt c else report (text (some e)) c
  async_read build text call none [] c = report (text none) c
  async_read build text call none (b ∷ bs) c = read_loop build call (length (b ∷ bs)) (b ∷ bs) c

  -- The end of a read.
  unfoldable pub read_ends :
      Build → (Option ErrorCode → Bytes) → Calls H → Option ErrorCode → Bytes → Run H Unit
  read_ends build text call ec chunk c =
      async_read build text call ec chunk (record c { reads = c.reads - 1 })

  unfoldable pub handle_async_connect : Calls H → Option ErrorCode → H → Run H Unit
  handle_async_connect call none handler c =
      (invoke call handler (code none) >> process_message) (record c { state = connected })
  handle_async_connect call (some e) handler c =
      invoke call handler (code (some e)) (record c { state = unconnected })
