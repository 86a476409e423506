-- ===== src/Client/AsyncApi/Sound/Reads.antt =====
-- Reads and replies keep what holds of a client at all times.
use redisclient_libary.Common.{
  Bytes, false, List, [], ◌∷◌, ◌-◌, ℕ, zero, suc, ◌≤◌, ◌<◌, length, length-drop, drop, Option, none,
  some, Build, Result, ok, fault, ◌≡◌, refl, Bool-cases, inl, inr, arith,
}
use redisclient_libary.Value.{
  RedisValue, nil, redis_value, null_tag, int64, bytes, array, is_array, to_array,
}
use redisclient_libary.Parser.Step.{Parser}
use redisclient_libary.Parser.Kept.{IsSaved, ParsedKept, parse-Kept}
use redisclient_libary.Parser.Flat.{IsFlat, Enters, IsFlat-Kept, result-IsSaved}
use redisclient_libary.Parser.Bounds.{parse_bounds}
use redisclient_libary.Parser.{Parsed, ParseResult, completed, uncompleted, error, parse, result}
use redisclient_libary.Socket.{ErrorCode}
use redisclient_libary.Client.{is_subscribed_state, ◌>>=◌, lift}
use redisclient_libary.Client.Async.{
  OnError, Async, Run, Calls, reply, invoke, process_message, pop_handler, call_front,
  process_array, do_process_message, is_aborted, is_empty,
}
use redisclient_libary.Client.Async.Loops.{read_round, read_loop, async_read, read_ends}
use redisclient_libary.Client.AsyncApi.Sound.{
  ErrorsKeepSound, IsSound, KeepsSound, HandlersKeepSound, bind-KeepsSound, number-IsKnownFault,
  report-KeepsSound, invoke-KeepsSound,
}

to_array-nil : (v : RedisValue) → is_array v ≡ false → to_array v ≡ nil
unfolding is_array to_array
to_array-nil (redis_value null_tag e) h = refl
to_array-nil (redis_value (int64 i) e) h = refl
to_array-nil (redis_value (bytes b) e) h = refl
to_array-nil (redis_value (array vs) e) h = cc h

module _ {H : Type 0} ⦃errors : OnError H⦄ (safe : ErrorsKeepSound errors) where
  -- Another parser, and other counts of reads and handlers.
  abbrev pub with_parser :
      (c : Async H) (p : Parser)
      → IsSound c
      → IsSaved IsFlat Enters p
      → IsSound (record c { parser = p })
  with_parser c p s v = record {
    one_write = s.one_write;
    flat = v;
    commands_only = s.commands_only;
    no_message = s.no_message;
  }

  pub process_message-KeepsSound : (c : Async H) → IsSound c → KeepsSound (process_message c)
  unfolding process_message
  process_message-KeepsSound c s = ground arith

  popped-KeepsSound :
      (hs : List H) (c : Async H)
      → IsSound c
      → KeepsSound (pop_handler (record c { handlers = hs }))
  unfolding pop_handler
  popped-KeepsSound [] c s = tt
  popped-KeepsSound (h ∷ hs) c s = ground arith

  module _ (call : Calls H) (keep : HandlersKeepSound call) where
    front-KeepsSound :
        (v : RedisValue) (hs : List H) (c : Async H)
        → IsSound c
        → KeepsSound (call_front call v (record c { handlers = hs }))
    unfolding call_front
    front-KeepsSound v [] c s = tt
    front-KeepsSound v (h ∷ hs) c s =
        let d = record c { handlers = h ∷ hs } in
        bind-KeepsSound (invoke call h (reply v)) (λ _. pop_handler) d
          (invoke-KeepsSound call h (reply v) d keep tt (ground arith))
          λ _ e t. popped-KeepsSound e.handlers e t

    do_process_message-KeepsSound :
        (v : RedisValue) (c : Async H)
        → is_array v ≡ false
        → IsSound c
        → KeepsSound (do_process_message call v c)
    unfolding do_process_message process_array
    do_process_message-KeepsSound v c h s = elim (Bool-cases (is_subscribed_state c.state)) [
      | inl e ↦ rw (e, to_array-nil v h) (report-KeepsSound _ c safe s)
      | inr e ↦ rw e (elim (Bool-cases (is_empty c.handlers)) [
        | inl f ↦ rw f (report-KeepsSound _ c safe s)
        | inr f ↦ rw f (front-KeepsSound v c.handlers c s)
      ])
    ]

    module _ (build : Build) where
      round-KeepsSound :
          (r : Parsed) (v : ParseResult) (again : Run H Unit) (c : Async H)
          → r.result ≡ v
          → IsSaved IsFlat Enters r.parser
          → ((d : Async H) → IsSound d → KeepsSound (again d))
          → IsSound c
          → KeepsSound (read_round call r again c)
      unfolding read_round result
      round-KeepsSound r completed again c e f next s = rw e (
          bind-KeepsSound (do_process_message call r.parser.redis_value) (λ _. again)
            (record c { parser = (result r.parser).1 })
            (do_process_message-KeepsSound r.parser.redis_value _ f.good.not_array
              (with_parser c (result r.parser).1 s (result-IsSaved r.parser f)))
            λ _. next)
      round-KeepsSound r uncompleted again c e f next s =
          rw e (process_message-KeepsSound _ (with_parser c r.parser s f))
      round-KeepsSound r error again c e f next s =
          rw e (report-KeepsSound _ _ safe (with_parser c r.parser s f))

      parsed-KeepsSound :
          (b : ℕ) (bs : Bytes) (c : Async H) (again : Parsed → Run H Unit) (r : Result Parsed)
          → parse build c.parser (b ∷ bs) ≡ r
          → ParsedKept IsFlat Enters r
          → ((q : Parsed) → 0 < q.consumed → (d : Async H) → IsSound d → KeepsSound (again q d))
          → IsSound c
          → KeepsSound ((lift r >>= λ q. read_round call q (again q)) c)
      parsed-KeepsSound b bs c again (fault f) e k next s = number-IsKnownFault f k
      parsed-KeepsSound b bs c again (ok r) e k next s =
          let (low, _, _) = parse_bounds build c.parser b bs r e in
          round-KeepsSound r r.result (again r) c refl k (next r low) s

      loop-KeepsSound :
          (fuel : ℕ) (bs : Bytes) (c : Async H)
          → length bs ≤ fuel
          → IsSound c
          → KeepsSound (read_loop build call fuel bs c)
      unfolding read_loop
      loop-KeepsSound zero [] c l s = process_message-KeepsSound c s
      loop-KeepsSound (suc fuel) [] c l s = process_message-KeepsSound c s
      loop-KeepsSound zero (b ∷ bs) c l s = absurd (omega arith)
      loop-KeepsSound (suc fuel) (b ∷ bs) c l s =
          parsed-KeepsSound b bs c (λ r. read_loop build call fuel (drop r.consumed (b ∷ bs)))
            (parse build c.parser (b ∷ bs)) refl
            (parse-Kept IsFlat Enters IsFlat-Kept build c.parser (b ∷ bs) s.flat)
            (λ r low d.
              loop-KeepsSound fuel (drop r.consumed (b ∷ bs)) d
                (omega (arith, length-drop r.consumed (b ∷ bs))))
            s

      async_read-KeepsSound :
          (describe : Option ErrorCode → Bytes) (ec : Option ErrorCode) (chunk : Bytes)
          (c : Async H)
          → IsSound c
          → KeepsSound (async_read build describe call ec chunk c)
      unfolding async_read
      async_read-KeepsSound describe (some e) chunk c s = elim (Bool-cases (is_aborted (some e))) [
        | inl f ↦ rw f s
        | inr f ↦ rw f (report-KeepsSound _ c safe s)
      ]
      async_read-KeepsSound describe none [] c s = report-KeepsSound _ c safe s
      async_read-KeepsSound describe none (b ∷ bs) c s =
          loop-KeepsSound (length (b ∷ bs)) (b ∷ bs) c (omega arith) s

      pub read_ends-KeepsSound :
          (describe : Option ErrorCode → Bytes) (ec : Option ErrorCode) (chunk : Bytes)
          (c : Async H)
          → IsSound c
          → KeepsSound (read_ends build describe call ec chunk c)
      unfolding read_ends
      read_ends-KeepsSound describe ec chunk c s =
          async_read-KeepsSound describe ec chunk (record c { reads = c.reads - 1 }) (ground arith)
