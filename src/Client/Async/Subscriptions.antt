-- ===== src/Client/Async/Subscriptions.antt =====
-- src/redisclient/RedisClientImpl.cpp: `subscribe`, `singleShotSubscribe` and `unsubscribe`.
use redisclient_libary.Common.{
  Bytes, Bool, ◌&&◌, ◌||◌, List, [], ◌∷◌, ◌++◌, eq_bytes, ℕ, ◌+◌, ◌%◌, ◌^◌, ◌==◌, codes,
  if◌then◌else◌, Build,
}
use redisclient_libary.Buffer.{text}
use redisclient_libary.Command.{make_command}
use redisclient_libary.Client.{
  State, subscribed, state_name, is_connected_state, is_subscribed_state, returned, ◌>>◌, return,
  require,
}
use redisclient_libary.Client.Async.{OnError, Run, command_task, report}

-- `state == State::Connected || state == State::Subscribed`
abbrev pub may_subscribe : State → Bool
may_subscribe s = is_connected_state s || is_subscribed_state s

module _ {H : Type 0} ⦃errors : OnError H⦄ where
  -- The assertion, and the test that repeats it.
  unfoldable pub when_open : {A : Type 0} → Build → Bytes → A → Run H A → Run H A
  when_open build name otherwise run c =
      (require build (may_subscribe c.state) >> λ d.
      if may_subscribe d.state
      then run d
      else (report ((name ++ codes " called with invalid state ") ++ state_name d.state)
            >> return otherwise)
          d)
        c

  -- A `size_t` counts the subscriptions.
  unfoldable pub subscribe : Build → Bytes → Bytes → H → H → Run H ℕ
  subscribe build command channel msg_handler handler =
      when_open build (codes "RedisClientImpl::subscribe") 0 λ c.
        returned c.subscribe_seq (record c {
          tasks =
              c.tasks
              ++ command_task (make_command (text command ∷ text channel ∷ [])) handler ∷ [];
          msg_handlers = c.msg_handlers ++ (channel, (c.subscribe_seq, msg_handler)) ∷ [];
          state = subscribed;
          subscribe_seq = (c.subscribe_seq + 1) % 2 ^ 64;
        })

  unfoldable pub single_shot_subscribe : Build → Bytes → Bytes → H → H → Run H Unit
  single_shot_subscribe build command channel msg_handler handler =
      when_open build (codes "RedisClientImpl::singleShotSubscribe") tt λ c. returned tt (record c {
        tasks =
            c.tasks ++ command_task (make_command (text command ∷ text channel ∷ [])) handler ∷ [];
        single_shot_msg_handlers = c.single_shot_msg_handlers ++ (channel, msg_handler) ∷ [];
        state = subscribed;
      })

  -- The loop over `equal_range`, which erases the entries with the id.
  abbrev pub erase_handle : ℕ → Bytes → List (Bytes × (ℕ × H)) → List (Bytes × (ℕ × H))
  erase_handle handle_id channel [] = []
  erase_handle handle_id channel ((k, (id, h)) ∷ rest) =
      let more = erase_handle handle_id channel rest in
      if eq_bytes k channel && id == handle_id then more else (k, (id, h)) ∷ more

  -- The counter of the `DEBUG` build is left out: it never gets above one.
  unfoldable pub unsubscribe : Build → Bytes → ℕ → Bytes → H → Run H Unit
  unsubscribe build command handle_id channel handler =
      when_open build (codes "RedisClientImpl::unsubscribe") tt λ c. returned tt (record c {
        msg_handlers = erase_handle handle_id channel c.msg_handlers;
        tasks =
            c.tasks ++ command_task (make_command (text command ∷ text channel ∷ [])) handler ∷ [];
      })
