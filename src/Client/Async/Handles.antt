-- ===== src/Client/Async/Handles.antt =====
-- The entries that `subscribe` makes and `unsubscribe` erases.
use mathlib.Core.Path.{subst}
use redisclient_libary.Common.{
  Bytes, Bool, true, false, ◌&&◌, List, [], ◌∷◌, ◌++◌, eq_bytes, eq_bytes_refl, ℕ, ◌+◌, ◌%◌, ◌^◌,
  ◌<◌, ◌==◌, All, All-append, Build, debug, release, ◌≡◌, refl, ap, ◌∙◌, sym, arith,
}
use redisclient_libary.Client.{subscribed, Ended, returned, ◌>>=◌, ◌>>◌}
use redisclient_libary.Client.Async.{OnError, Async, Run}
use redisclient_libary.Client.Async.Subscriptions.{
  may_subscribe, when_open, subscribe, unsubscribe, erase_handle,
}

and_false : (b : Bool) → (b && false) ≡ false
and_false true = refl
and_false false = refl

same_id : (n : ℕ) → (n == n) ≡ true
same_id n = ground arith

other_id : (n k : ℕ) → n < k → (n == k) ≡ false
other_id n k l = ground (arith, l)

module _ {H : Type 0} ⦃errors : OnError H⦄ where
  -- The ids of the entries were given out before.
  abbrev pub IsBelow : ℕ → Bytes × (ℕ × H) → Type 0
  IsBelow seq (channel, (id, h)) = id < seq

  abbrev pub IsFresh : Async H → Type 0
  IsFresh c = All (IsBelow c.subscribe_seq) c.msg_handlers

  erase_handle-append :
      (seq : ℕ) (channel : Bytes) (h : H) (entries : List (Bytes × (ℕ × H)))
      → All (IsBelow seq) entries
      → erase_handle seq channel (entries ++ (channel, (seq, h)) ∷ []) ≡ entries
  erase_handle-append seq channel h [] a = rw (eq_bytes_refl channel, same_id seq) refl
  erase_handle-append seq channel h ((k, (id, g)) ∷ entries) (l, a) =
      let kept : (eq_bytes k channel && (id == seq)) ≡ false =
        ap (λ x. eq_bytes k channel && x) (other_id id seq l) ∙ and_false (eq_bytes k channel) in
      rw (kept, erase_handle-append seq channel h entries a) refl

  pub when_open-opened :
      {A : Type 0} (build : Build) (name : Bytes) (otherwise : A) (run : Run H A) (c : Async H)
      → may_subscribe c.state ≡ true
      → when_open build name otherwise run c ≡ run c
  unfolding when_open
  when_open-opened debug name otherwise run c e = rw (◌>>◌, ◌>>=◌, e) (rw e refl)
  when_open-opened release name otherwise run c e = rw (◌>>◌, ◌>>=◌, e) refl

  bind-returned :
      {A B : Type 0} (run : Run H A) (next : A → Run H B) {x : A} {c s : Async H}
      {e : Ended (Async H) B}
      → run c ≡ returned x s
      → next x s ≡ e
      → (run >>= next) c ≡ e
  bind-returned run next f g = rw (◌>>=◌, f) g

  IsBelow-suc :
      (n : ℕ) (entries : List (Bytes × (ℕ × H)))
      → All (IsBelow n) entries
      → All (IsBelow (n + 1)) entries
  IsBelow-suc n [] a = tt
  IsBelow-suc n ((k, (id, h)) ∷ entries) (l, a) = (omega arith, IsBelow-suc n entries a)

  module _ (build : Build) (command channel : Bytes) (msg_handler handler : H) (c : Async H) where
    -- An open client that gave out its ids before gives out a new one: `subscribe` keeps all ids below
    -- the next one, as long as a `size_t` counts them.
    subscribe-IsFresh :
        may_subscribe c.state ≡ true
        → IsFresh c
        → c.subscribe_seq + 1 < 2 ^ 64
        → (d : Async H) × (subscribe build command channel msg_handler handler c
            ≡ returned c.subscribe_seq d)
          × IsFresh d
    unfolding subscribe
    subscribe-IsFresh opened fresh l =
        let next : (c.subscribe_seq + 1) % 2 ^ 64 ≡ c.subscribe_seq + 1 = omega (arith, l) in
        (
          _,
          when_open-opened build _ 0 _ c opened,
          subst
              (λ n.
                All (IsBelow n) (c.msg_handlers ++ (channel, (c.subscribe_seq, msg_handler)) ∷ []))
              (sym next)
              (All-append (IsBelow (c.subscribe_seq + 1)) c.msg_handlers _
                (IsBelow-suc c.subscribe_seq c.msg_handlers fresh) (omega arith, tt)),
        )

    -- `unsubscribe` with what `subscribe` gave back leaves the message handlers of before, those of the
    -- same channel included, and the client stays in the state `Subscribed`. The ids that were given
    -- out are taken to be below the next one.
    unsubscribe-subscribe :
        (command' : Bytes) (handler' : H)
        → may_subscribe c.state ≡ true
        → IsFresh c
        → (d : Async H) × ((subscribe build command channel msg_handler handler >>= λ id.
                unsubscribe build command' id channel handler')
              c
            ≡ returned tt d)
          × (d.msg_handlers ≡ c.msg_handlers)
          × (d.state ≡ subscribed)
    unfolding subscribe unsubscribe
    unsubscribe-subscribe command' handler' opened fresh = (
      _,
      bind-returned (subscribe build command channel msg_handler handler) _
          (when_open-opened {A = ℕ} build _ 0 _ c opened) (when_open-opened build _ tt _ _ refl),
      erase_handle-append c.subscribe_seq channel msg_handler c.msg_handlers fresh,
      refl,
    )
