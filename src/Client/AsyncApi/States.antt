-- ===== src/Client/AsyncApi/States.antt =====
-- The states of a connection as an abstract machine, and what each event does to it.
pub mod Diagram
use redisclient_libary.Common.{Bytes, List, [], ◌∷◌, none, some, ◌≡◌, if◌then◌else◌}
use redisclient_libary.Client.{
  State, unconnected, connecting, connected, subscribed, closed, Ended, ◌>>=◌,
}
use redisclient_libary.Client.AsyncApi.Keeping.{Property, Keeps, HandlersKeep, ErrorsKeep}
use mathlib.Core.Path.{subst}
use redisclient_libary.Client.Async.{OnError, Async, Calls, Argument}
use redisclient_libary.Client.Async.Subscriptions.{may_subscribe}
use redisclient_libary.Client.AsyncApi.{may_connect}
use redisclient_libary.Client.AsyncApi.Events.{
  Event, connects, connects_local, connect_ends, disconnects, subscribes, psubscribes, single_shots,
  single_shot_patterns,
}

-- A client that is not connected begins to connect, the end of that says whether it is connected, a
-- connected one becomes subscribed and stays so, and any is closed.
abbrev pub next_state : {H : Type 0} → Event H → State → State
next_state (connects _) s = if may_connect s then connecting else s
next_state (connects_local _) s = if may_connect s then connecting else s
next_state (connect_ends none _) s = connected
next_state (connect_ends (some _) _) s = unconnected
next_state disconnects s = closed
next_state (subscribes _ _ _) s = if may_subscribe s then subscribed else s
next_state (psubscribes _ _ _) s = if may_subscribe s then subscribed else s
next_state (single_shots _ _ _) s = if may_subscribe s then subscribed else s
next_state (single_shot_patterns _ _ _) s = if may_subscribe s then subscribed else s
next_state _ s = s

-- The state of the machine behind a number of events, the last one in front.
abbrev pub state_after : {H : Type 0} → List (Event H) → State
state_after [] = unconnected
state_after (e ∷ events) = next_state e (state_after events)

module _ {H : Type 0} where
  abbrev pub InState : State → Property H
  InState s t entries seq marks = t ≡ s

  -- An operation that returns or throws does so in this state.
  abbrev pub EndsIn : {A : Type 0} → State → Ended (Async H) A → Type 0
  EndsIn s = Keeps (InState s)

  -- Handlers that do not connect, disconnect or subscribe.
  abbrev pub HandlersKeepState : Calls H → Type 0
  HandlersKeepState call = (h : H) (x : Argument) (c : Async H) → EndsIn c.state (call h x c)

  -- A function installed for errors that does neither.
  abbrev pub ErrorsKeepState : OnError H → Type 0
  ErrorsKeepState e = (note : Bytes) (c : Async H) → EndsIn c.state (e.on_error note c)

  pub HandlersKeepState-HandlersKeep :
      (call : Calls H) (s : State) → HandlersKeepState call → HandlersKeep (InState s) call
  HandlersKeepState-HandlersKeep call s keep h x c e =
      subst (λ t. EndsIn t (call h x c)) e (keep h x c)

  pub ErrorsKeepState-ErrorsKeep :
      (e : OnError H) (s : State) → ErrorsKeepState e → ErrorsKeep (InState s) e
  ErrorsKeepState-ErrorsKeep e s calm note c in_s =
      subst (λ t. EndsIn t (e.on_error note c)) in_s (calm note c)
