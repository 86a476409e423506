-- ===== src/Examples/PubSub/Publisher.antt =====
-- The publisher of examples/async_pubsub.cpp always has something to come.
use mathlib.Core.Path.{subst}
use redisclient_libary.Common.{
  Bytes, Bool, true, false, List, [], ◌∷◌, ◌++◌, ℕ, Option, none, some, Build, debug, release, ◌≡◌,
  ◌⊎◌, inl, inr, refl, if◌then◌else◌,
}
use redisclient_libary.Socket.{ErrorCode}
use redisclient_libary.Client.{
  State, installed, unconnected, connecting, connected, subscribed, closed,
}
use redisclient_libary.Client.Async.{
  Async, reply, message, code, invoke, process_message, close, post,
}
use redisclient_libary.Client.Async.Loops.{handle_async_connect}
use redisclient_libary.Client.AsyncApi.{
  connect, disconnect, publish, post_command, statement_valid, new_client, install_error_handler,
}
use redisclient_libary.Client.AsyncApi.Keeping.{
  Property, Holds, Keeps, HandlersKeep, ErrorsKeep, bind-Keeps,
}
use redisclient_libary.Client.AsyncApi.Keeping.Tasks.{write_ends-Keeps, run_task-Keeps}
use redisclient_libary.Client.AsyncApi.Keeping.Reads.{read_ends-Keeps}
use redisclient_libary.Examples.PubSub.{
  Timer, publish_timer, connect_subscriber_timer, connect_publisher_timer, Action,
  on_publisher_connected, begins, cancels, ends, call_later, publisher_connected, publisher_call,
  connect_publisher, publisher_errors, timeouts, publish_text, on_publish_timeout, publisher_timer,
  start_publisher, Happening, connection_ends, task_runs, write_is_over, read_is_over, timer_ends,
  happen, publisher_happen, Runs, starts, goes_on,
}

abbrev same_timer : Timer → Timer → Bool
same_timer publish_timer publish_timer = true
same_timer connect_subscriber_timer connect_subscriber_timer = true
same_timer connect_publisher_timer connect_publisher_timer = true
same_timer _ _ = false

-- Whether a timer is waited for, behind a mark and behind a number of them.
abbrev behind_mark : Timer → Bool → Action → Bool
behind_mark t b (begins u) = if same_timer t u then true else b
behind_mark t b (cancels u) = if same_timer t u then false else b
behind_mark t b (ends u) = if same_timer t u then false else b
behind_mark t b _ = b

abbrev waits_from : Timer → Bool → List Action → Bool
waits_from t b [] = b
waits_from t b (m ∷ marks) = waits_from t (behind_mark t b m) marks

abbrev pub waits : Timer → List Action → Bool
waits t = waits_from t false

waits_from-append :
    (t : Timer) (b : Bool) (xs : List Action) (m : Action)
    → waits_from t b (xs ++ m ∷ []) ≡ behind_mark t (waits_from t b xs) m
waits_from-append t b [] m = refl
waits_from-append t b (x ∷ xs) m = waits_from-append t (behind_mark t b x) xs m

-- A connection is under way, or the wait for the next message or for the next attempt to connect.
abbrev pub HasNext : Property Action
HasNext s entries seq marks =
    (s ≡ connecting)
    ⊎ ((waits publish_timer marks ≡ true) ⊎ (waits connect_publisher_timer marks ≡ true))

publisher_connected-HasNext :
    (ec : Option ErrorCode) (c : Async Action) → Keeps HasNext (publisher_connected ec c)
unfolding publisher_connected call_later
publisher_connected-HasNext none c =
    inr (inl (waits_from-append publish_timer false c.marks (begins publish_timer)))
publisher_connected-HasNext (some e) c =
    inr (
      inr
        (waits_from-append connect_publisher_timer false c.marks (begins connect_publisher_timer)))

publisher_call-HandlersKeep : HandlersKeep HasNext publisher_call
unfolding publisher_call
publisher_call-HandlersKeep on_publisher_connected (code ec) c h = publisher_connected-HasNext ec c
publisher_call-HandlersKeep on_publisher_connected (reply v) c h = h
publisher_call-HandlersKeep on_publisher_connected (message m) c h = h
publisher_call-HandlersKeep _ x c h = h

connected-HasNext :
    (ec : Option ErrorCode) (c : Async Action)
    → Keeps HasNext (invoke publisher_call on_publisher_connected (code ec) c)
unfolding invoke publisher_call
connected-HasNext ec c =
    publisher_connected-HasNext ec
      (record c { calls = c.calls ++ (on_publisher_connected, code ec) ∷ [] })

-- Whatever the client was doing, an attempt to connect leaves something to come.
connect_publisher-HasNext :
    (s : State) (c : Async Action) → Keeps HasNext (connect_publisher (record c { state = s }))
unfolding connect_publisher connect disconnect close invoke publisher_call publisher_connected
    call_later
connect_publisher-HasNext connected c = inl refl
connect_publisher-HasNext unconnected c = inl refl
connect_publisher-HasNext closed c = inl refl
connect_publisher-HasNext connecting c =
    inr (inl (waits_from-append publish_timer false c.marks (begins publish_timer)))
connect_publisher-HasNext subscribed c =
    inr (inl (waits_from-append publish_timer false c.marks (begins publish_timer)))

publisher_errors-ErrorsKeep : ErrorsKeep HasNext publisher_errors
publisher_errors-ErrorsKeep note c h = connect_publisher-HasNext c.state c

on_publish_timeout-HasNext :
    (build : Build) (n : ℕ) (s : State) (c : Async Action)
    → Keeps HasNext (on_publish_timeout build n (record c { state = s }))
unfolding on_publish_timeout publish_text call_later publish post_command statement_valid post
on_publish_timeout-HasNext debug n connected c =
    inr (inl (waits_from-append publish_timer false c.marks (begins publish_timer)))
on_publish_timeout-HasNext release n connected c =
    inr (inl (waits_from-append publish_timer false c.marks (begins publish_timer)))
on_publish_timeout-HasNext build n unconnected c =
    inr (inl (waits_from-append publish_timer false c.marks (begins publish_timer)))
on_publish_timeout-HasNext build n connecting c =
    inr (inl (waits_from-append publish_timer false c.marks (begins publish_timer)))
on_publish_timeout-HasNext build n subscribed c =
    inr (inl (waits_from-append publish_timer false c.marks (begins publish_timer)))
on_publish_timeout-HasNext build n closed c =
    inr (inl (waits_from-append publish_timer false c.marks (begins publish_timer)))

publisher_timer-HasNext :
    (build : Build) (t : Timer) (c : Async Action)
    → Holds HasNext c
    → Keeps HasNext (publisher_timer build t c)
unfolding publisher_timer
publisher_timer-HasNext build publish_timer c h =
    on_publish_timeout-HasNext build (timeouts c.marks) c.state
      (record c { marks = c.marks ++ ends publish_timer ∷ [] })
publisher_timer-HasNext build connect_publisher_timer c h =
    connect_publisher-HasNext c.state
      (record c { marks = c.marks ++ ends connect_publisher_timer ∷ [] })
publisher_timer-HasNext build connect_subscriber_timer c h = h

module _ (build : Build) (describe : Option ErrorCode → Bytes) where
  publisher_happen-HasNext :
      (e : Happening) (c : Async Action)
      → Holds HasNext c
      → Keeps HasNext (publisher_happen build describe e c)
  unfolding happen handle_async_connect process_message
  publisher_happen-HasNext (connection_ends none) c h =
      bind-Keeps HasNext (invoke publisher_call on_publisher_connected (code none))
        (λ _. process_message) (record c { state = connected })
        (connected-HasNext none (record c { state = connected })) λ _ d f. f
  publisher_happen-HasNext (connection_ends (some e)) c h =
      connected-HasNext (some e) (record c { state = unconnected })
  publisher_happen-HasNext task_runs c h =
      run_task-Keeps ⦃errors = publisher_errors⦄ HasNext publisher_errors-ErrorsKeep publisher_call
        publisher_call-HandlersKeep describe c h
  publisher_happen-HasNext (write_is_over ec) c h =
      write_ends-Keeps ⦃errors = publisher_errors⦄ HasNext publisher_errors-ErrorsKeep describe ec c
        h
  publisher_happen-HasNext (read_is_over ec chunk) c h =
      read_ends-Keeps ⦃errors = publisher_errors⦄ HasNext publisher_errors-ErrorsKeep publisher_call
        publisher_call-HandlersKeep build describe ec chunk c h
  publisher_happen-HasNext (timer_ends t) c h = publisher_timer-HasNext build t c h

  -- Whatever the system and the strand do to the publisher of the example, in any order, errors
  -- included, as long as what they call returns: it is never left with nothing to come. A connection
  -- is under way, or the wait for the next message or for the next attempt to connect is.
  pub Runs-HasNext :
      (happenings : List Happening) (c : Async Action)
      → Runs start_publisher (publisher_happen build describe) happenings c
      → Holds HasNext c
  unfolding start_publisher install_error_handler
  Runs-HasNext _ c (starts e) =
      subst (Keeps HasNext) e
        (connect_publisher-HasNext unconnected (record new_client { error_handler = installed }))
  Runs-HasNext _ d (goes_on {before} {c} e r h) =
      subst (Keeps HasNext) h (publisher_happen-HasNext e c (Runs-HasNext before c r))
