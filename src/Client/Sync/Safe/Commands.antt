-- ===== src/Client/Sync/Safe/Commands.antt =====
-- How the commands of a synchronous client end, whatever the system answers and the peer sends.
use mathlib.Core.Path.{subst}
use native.Mathlib.Nat.{zero-add}
use redisclient_libary.Common.{
  ◌++◌, Bytes, List, [], ◌∷◌, ℕ, suc, ◌+◌, length, map, Option, none, some, Build, ◌≡◌, refl, ap,
  ◌∙◌, sym, arith,
}
use redisclient_libary.Value.{
  RedisValue, Values, nil, cons, push_back, size, null_value, array_value,
}
use redisclient_libary.Parser.Number.Faults.{IsNumberFault}
use redisclient_libary.Buffer.{RedisBuffer}
use redisclient_libary.Command.{make_command}
use redisclient_libary.Socket.{ErrorCode, Written, socket_write_buffers}
use redisclient_libary.Client.{Ended, returned, thrown, crashed, waiting, ◌>>=◌, ◌>>◌}
use redisclient_libary.Client.Sync.{
  OnError, Sync, Run, sync_read_response, write_buffers, unless_failed, read_responses,
  do_sync_commands,
}
use redisclient_libary.Client.Sync.Safe.{ErrorsKeepReadable, IsReadable, EndsSafely}
use redisclient_libary.Client.Sync.Safe.Loop.{sync_read_response-EndsSafely}

size-push_back : (vs : Values) (v : RedisValue) → size (push_back vs v) ≡ suc (size vs)
unfolding push_back
size-push_back nil v = refl
size-push_back (cons w vs) v = ap suc (size-push_back vs v)

-- All of the responses and no error code, or none and a code.
abbrev pub AllOrNothing : ℕ → RedisValue → Option ErrorCode → Type 0
AllOrNothing n v none = (vs : Values) × (v ≡ array_value vs) × (size vs ≡ n)
AllOrNothing n v (some e) = v ≡ null_value

abbrev pub EndsWhole : ℕ → Ended Sync RedisValue → Type 0
EndsWhole n (returned v d) = IsReadable d × AllOrNothing n v d.ec
EndsWhole n (thrown e d) = IsReadable d
EndsWhole n (crashed f) = IsNumberFault f
EndsWhole n waiting = Unit

-- `if (ec) return RedisValue();` in front of what follows.
unless_failed-EndsWhole :
    (n : ℕ) (next : Run RedisValue) (c : Sync) (ec : Option ErrorCode)
    → IsReadable (record c { ec = ec })
    → (ec ≡ none → EndsWhole n (next (record c { ec = ec })))
    → EndsWhole n (unless_failed next (record c { ec = ec }))
unfolding unless_failed
unless_failed-EndsWhole n next c none h k = k refl
unless_failed-EndsWhole n next c (some e) h k = (h, refl)

module _ ⦃errors : OnError⦄ (safe : ErrorsKeepReadable errors) (build : Build) where
  response-EndsWhole :
      (n : ℕ) (next : RedisValue → Run RedisValue) (c : Sync) (e : Ended Sync RedisValue)
      → sync_read_response build c ≡ e
      → EndsSafely e
      → ((v : RedisValue) (d : Sync) → IsReadable d → EndsWhole n (next v d))
      → EndsWhole n ((sync_read_response build >>= next) c)
  response-EndsWhole n next c (returned v d) f (h, _) k = rw (◌>>=◌, f) (k v d h)
  response-EndsWhole n next c (thrown x d) f h k = rw (◌>>=◌, f) h
  response-EndsWhole n next c (crashed x) f h k = rw (◌>>=◌, f) h
  response-EndsWhole n next c waiting f h k = rw (◌>>=◌, f) tt

  read_responses-EndsWhole :
      (commands : List (List RedisBuffer)) (vs : Values) (c : Sync)
      → IsReadable c
      → c.ec ≡ none
      → EndsWhole (size vs + length commands) (read_responses build commands vs c)
  unfolding read_responses
  read_responses-EndsWhole [] vs c h e =
      (h, subst (AllOrNothing (size vs + 0) (array_value vs)) (sym e) (vs, refl, omega arith))
  read_responses-EndsWhole (command ∷ commands) vs c h e =
      response-EndsWhole (size vs + length (command ∷ commands)) _ c (sync_read_response build c)
        refl (sync_read_response-EndsSafely safe build c h)
        λ v d r. unless_failed-EndsWhole _ _ d d.ec r λ none_set.
          subst (λ n. EndsWhole n (read_responses build commands (push_back vs v) d))
            (ap (λ n. n + length commands) (size-push_back vs v) ∙ omega arith)
            (read_responses-EndsWhole commands (push_back vs v) d r none_set)

  written :
      (content : List Bytes) (c : Sync) (out : Option Written) (n : ℕ) (next : Run RedisValue)
      → socket_write_buffers c.sends c.ec content ≡ out
      → IsReadable c
      → ((d : Sync) → IsReadable d → d.ec ≡ none → EndsWhole n (next d))
      → EndsWhole n ((write_buffers content >> unless_failed next) c)
  unfolding write_buffers
  written content c none n next f h k = rw (◌>>◌, ◌>>=◌, f) tt
  written content c (some w) n next f h k =
      let d = record c { wire = c.wire ++ w.wire; ec = w.ec; sends = w.attempts } in
      let r : IsReadable d = record { flat = h.flat; in_room = h.in_room; receives = h.receives } in
      rw (◌>>◌, ◌>>=◌, f) (unless_failed-EndsWhole n next d w.ec r (k d r))

  -- A pipeline gives all of its responses or none, whatever bytes the peer sends in whatever pieces, and
  -- however the system fails: it returns an array with one value for each command and no error code, or
  -- null with a code that is set, in which the responses that had come are lost; or the error handler
  -- throws, `bufferToLong` fails, or the operation waits for the system. `recv` is taken to store no
  -- more than it is offered room for, and the function installed for errors to keep to that.
  pub do_sync_commands-EndsWhole :
      (commands : List (List RedisBuffer)) (c : Sync)
      → IsReadable c
      → EndsWhole (length commands) (do_sync_commands build commands c)
  unfolding do_sync_commands
  do_sync_commands-EndsWhole commands c h =
      written (map make_command commands) c
        (socket_write_buffers c.sends c.ec (map make_command commands)) (length commands)
        (read_responses build commands nil) refl h
        λ d r none_set.
          subst (λ n. EndsWhole n (read_responses build commands nil d))
            (zero-add (length commands)) (read_responses-EndsWhole commands nil d r none_set)
