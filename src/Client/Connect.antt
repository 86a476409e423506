-- ===== src/Client/Connect.antt =====
-- src/redisclient/RedisSyncClient.cpp, `connect` to a TCP endpoint. What the system answers to each
-- call is an argument; the address is left to the system.
use redisclient_libary.Common.{
  Bool, Bool-cases, ◌⊎◌, inl, inr, List, [], ◌∷◌, ℕ, ◌==◌, Option, none, some, if◌then◌else◌, ◌≡◌,
  refl, ◌∙◌,
}
use redisclient_libary.Socket.{ErrorCode, eintr}
use redisclient_libary.Client.{connected, returned, waiting, from_errno, throw_if_error, ◌>>=◌}
use redisclient_libary.Client.Sync.{Sync, Run}

-- EINPROGRESS
abbrev pub einprogress : ℕ
einprogress = 115

-- One round of waiting: `poll` fails, it times out, or the socket is ready, when `getsockopt` fails
-- or gives a value; each with `errno`.
pub data Waited : Type 0 where
  poll_fails timed_out getsockopt_fails : ℕ → Waited
  option_value : ℕ → ℕ → Waited

-- The error code of `open` and that of `set_option`, the `errno` of each call that fails, and the
-- rounds of waiting to come.
pub record SystemAnswers : Type 0 where
  pub opened : Option ErrorCode
  pub no_delay : Option ErrorCode
  pub first_flags : Option ℕ
  pub second_flags : Option ℕ
  pub dialed : Option ℕ
  pub rounds : List Waited
  pub last_flags : Option ℕ
  pub cleared : Option ℕ

-- How the middle part ends: with `return` and the error code, or by going on.
pub data Dialed : Type 0 where
  returns : Option ErrorCode → Dialed
  goes_on : Dialed
  never_ends : Dialed

-- `for (;;)` behind EINPROGRESS. No round ends the loop but by `return`; where the list ends it still
-- runs.
unfoldable pub wait_loop : List Waited → Dialed
wait_loop [] = never_ends
wait_loop (poll_fails errno ∷ rounds) =
    let rest = wait_loop rounds in if errno == eintr then rest else returns (from_errno errno)
wait_loop (timed_out errno ∷ rounds) = returns (from_errno errno)
wait_loop (getsockopt_fails errno ∷ rounds) = returns (from_errno errno)
wait_loop (option_value value errno ∷ rounds) =
    let rest = wait_loop rounds in if value == 0 then rest else returns (from_errno errno)

unfoldable pub dial : SystemAnswers → Dialed
dial a = elim a.dialed [
  | none ↦ goes_on
  | some errno ↦ if errno == einprogress then wait_loop a.rounds else returns (from_errno errno)
]

-- A call that fails sets the error code.
abbrev pub or_errno : Option ℕ → Option ErrorCode → Option ErrorCode
or_errno none ec = ec
or_errno (some errno) ec = from_errno errno

-- The option is only set if the socket was opened.
abbrev pub after_open : Bool → SystemAnswers → Option ErrorCode
after_open tcp_no_delay a = elim a.opened [
  | some e ↦ some e
  | none ↦ if tcp_no_delay then a.no_delay else none
]

abbrev pub before_dial : Bool → SystemAnswers → Option ErrorCode
before_dial tcp_no_delay a =
    or_errno a.second_flags (or_errno a.first_flags (after_open tcp_no_delay a))

-- Behind `dial`: the two calls that restore the flags return when they fail, and the state is set
-- if no error code is.
unfoldable pub settle : SystemAnswers → Option ErrorCode → Run Unit
settle a ec c = elim a.last_flags [
  | some errno ↦ returned tt (record c { ec = from_errno errno })
  | none ↦ elim a.cleared [
    | some errno ↦ returned tt (record c { ec = from_errno errno })
    | none ↦ elim ec [
      | none ↦ returned tt (record c { ec = none; state = connected })
      | some e ↦ returned tt (record c { ec = some e })
    ]
  ]
]

unfoldable pub connect_ec : Bool → SystemAnswers → Run Unit
connect_ec tcp_no_delay a c = elim (dial a) [
  | returns ec ↦ returned tt (record c { ec = ec })
  | goes_on ↦ settle a (before_dial tcp_no_delay a) c
  | never_ends ↦ waiting
]

unfoldable pub connect : Bool → SystemAnswers → Run Unit
unfolding connect_ec throw_if_error
connect tcp_no_delay a c =
    (connect_ec tcp_no_delay a >>= λ _ d. throw_if_error d.ec d) (record c { ec = none })

-- `connect` to a local endpoint, with the error codes of `open` and of the socket's `connect`.
unfoldable pub connect_local_ec : Option ErrorCode → Option ErrorCode → Run Unit
connect_local_ec (some e) dialed c = returned tt (record c { ec = some e })
connect_local_ec none (some e) c = returned tt (record c { ec = some e })
connect_local_ec none none c = returned tt (record c { ec = none; state = connected })

-- The same with an error code of its own, which `detail::throwIfError;` does not look at: it is named
-- there and not called.
unfoldable pub connect_local : Option ErrorCode → Option ErrorCode → Run Unit
connect_local opened dialed c = connect_local_ec opened dialed (record c { ec = none })

-- Waiting returns with some code, or it goes on.
wait_loop-cases :
    (rounds : List Waited)
    → (wait_loop rounds ≡ never_ends) ⊎ ((ec : Option ErrorCode) × (wait_loop rounds ≡ returns ec))
unfolding wait_loop
wait_loop-cases [] = inl refl
wait_loop-cases (poll_fails errno ∷ rounds) = elim (Bool-cases (errno == eintr)) [
  | inl e ↦ rw e (wait_loop-cases rounds)
  | inr e ↦ rw e (inr (_, refl))
]
wait_loop-cases (timed_out errno ∷ rounds) = inr (_, refl)
wait_loop-cases (getsockopt_fails errno ∷ rounds) = inr (_, refl)
wait_loop-cases (option_value value errno ∷ rounds) = elim (Bool-cases (value == 0)) [
  | inl e ↦ rw e (wait_loop-cases rounds)
  | inr e ↦ rw e (inr (_, refl))
]

dial-rounds : (a : SystemAnswers) → a.dialed ≡ some einprogress → dial a ≡ wait_loop a.rounds
unfolding dial
dial-rounds a e = rw e refl

-- A connection that is in progress when the system's `connect` returns is never made: whatever the
-- rounds of waiting bring, `connect` still waits, or it returns in the state that it was called in.
pub connect_ec_in_progress :
    (tcp_no_delay : Bool) (a : SystemAnswers) (c : Sync)
    → a.dialed ≡ some einprogress
    → (connect_ec tcp_no_delay a c ≡ waiting)
      ⊎ ((ec : Option ErrorCode) × (connect_ec tcp_no_delay a c
            ≡ returned tt (record c { ec = ec })))
unfolding connect_ec
connect_ec_in_progress tcp_no_delay a c e = elim (wait_loop-cases a.rounds) [
  | inl f ↦ inl (rw (connect_ec, dial-rounds a e ∙ f) refl)
  | inr (ec, f) ↦ inr (ec, rw (connect_ec, dial-rounds a e ∙ f) refl)
]
