-- ===== src/Client/Async/Writes.antt =====
-- The writes that a client begins, while commands are queued and writes end.
use mathlib.Core.Path.{subst}
use redisclient_libary.Common.{
  Bytes, List, [], ◌∷◌, ◌++◌, append_assoc, append-nil, flatten, ℕ, ◌≤◌, Option, none, ◌≡◌, refl,
  ap, ◌∙◌, sym, arith,
}
use redisclient_libary.Socket.{ErrorCode}
use redisclient_libary.Client.{Ended, returned}
use redisclient_libary.Client.Async.{OnError, Async}
use redisclient_libary.Client.Async.Loops.{async_write, write_ends, do_async_command}

pub flatten-append : (xss yss : List Bytes) → flatten (xss ++ yss) ≡ flatten xss ++ flatten yss
flatten-append [] yss = refl
flatten-append (xs ∷ xss) yss =
    ap (◌++◌ xs) (flatten-append xss yss) ∙ sym (append_assoc xs (flatten xss) (flatten yss))

abbrev pub outstanding : List Bytes → ℕ
outstanding [] = 0
outstanding (_ ∷ _) = 1

module _ {H : Type 0} ⦃errors : OnError H⦄ where
  -- From a client, commands are run and writes that were begun end without an error, in any order: the
  -- requests and the handlers of the commands, and the client behind them.
  pub data Writing (describe : Option ErrorCode → Bytes) (c : Async H)
      : List Bytes → List H → Async H → Type 0 where
    start : Writing describe c [] [] c
    queue :
        {requests : List Bytes} {hs : List H} {d e : Async H} (b : Bytes) (h : H)
        → Writing describe c requests hs d
        → do_async_command describe b h d ≡ returned tt e
        → Writing describe c (requests ++ b ∷ []) (hs ++ h ∷ []) e
    end :
        {requests : List Bytes} {hs : List H} {d e : Async H}
        → Writing describe c requests hs d
        → 1 ≤ d.writes
        → write_ends describe none d ≡ returned tt e
        → Writing describe c requests hs e

  -- What is on the wire and what is queued are the requests in their order, the handlers wait in that
  -- order too, there is one write at most, and none only if nothing is queued.
  pub record Orderly (c : Async H) (requests : List Bytes) (hs : List H) (d : Async H)
      : Type 0 where
    pub order : d.wire ++ flatten d.data_queued ≡ c.wire ++ flatten requests
    pub waiting : d.handlers ≡ c.handlers ++ hs
    pub one_write : d.writes ≡ outstanding d.data_written
    pub in_time : d.data_written ≡ [] → d.data_queued ≡ []

  abbrev pub with_data : Async H → List Bytes → List Bytes → Async H
  with_data d w q = record d { data_written = w; data_queued = q }

  abbrev done : Async H → Ended (Async H) (Unit {0})
  done d = returned tt d

  returned-injective : {d e : Async H} → done d ≡ done e → d ≡ e
  returned-injective e = cc e

  module _ (describe : Option ErrorCode → Bytes) (c : Async H) (requests : List Bytes)
      (hs : List H) where
    one_more :
        (wire : Bytes) (b : Bytes)
        → wire ≡ c.wire ++ flatten requests
        → wire ++ b ≡ c.wire ++ flatten (requests ++ b ∷ [])
    one_more wire b e =
        ap (λ x. x ++ b) e
        ∙ append_assoc c.wire (flatten requests) b
        ∙ ap (λ x. c.wire ++ (flatten requests ++ x)) (sym (append-nil b))
        ∙ ap (◌++◌ c.wire) (sym (flatten-append requests (b ∷ [])))

    pub Orderly-queue :
        (d e : Async H) (b : Bytes) (h : H) (w q : List Bytes)
        → Orderly c requests hs (with_data d w q)
        → do_async_command describe b h (with_data d w q) ≡ returned tt e
        → Orderly c (requests ++ b ∷ []) (hs ++ h ∷ []) e
    unfolding do_async_command async_write
    Orderly-queue d e b h [] (x ∷ q) o f = cc (o.in_time refl)
    Orderly-queue d e b h [] [] o f = subst (Orderly c _ _) (returned-injective f) (record {
      order =
          append-nil (d.wire ++ (b ++ []))
          ∙ ap (◌++◌ d.wire) (append-nil b)
          ∙ one_more d.wire b (sym (append-nil d.wire) ∙ o.order);
      waiting = ap (λ x. x ++ h ∷ []) o.waiting ∙ append_assoc c.handlers hs (h ∷ []);
      one_write = omega (arith, o.one_write);
      in_time = λ _. refl;
    })
    Orderly-queue d e b h (y ∷ w) q o f = subst (Orderly c _ _) (returned-injective f) (record {
      order =
          ap (◌++◌ d.wire) (flatten-append q (b ∷ []) ∙ ap (◌++◌ (flatten q)) (append-nil b))
          ∙ sym (append_assoc d.wire (flatten q) b)
          ∙ one_more (d.wire ++ flatten q) b o.order;
      waiting = ap (λ x. x ++ h ∷ []) o.waiting ∙ append_assoc c.handlers hs (h ∷ []);
      one_write = o.one_write;
      in_time = λ u. cc u;
    })
