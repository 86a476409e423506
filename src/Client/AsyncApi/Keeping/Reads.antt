-- ===== src/Client/AsyncApi/Keeping/Reads.antt =====
-- Reads leave a property as it is.
use redisclient_libary.Common.{
  Bytes, not, ◌&&◌, List, [], ◌∷◌, ◌-◌, ℕ, zero, suc, length, drop, Option, none, some, Build,
  Result, ok, fault, ◌≡◌, refl, Bool-cases, inl, inr,
}
use redisclient_libary.Value.{RedisValue, Values, nil, cons, to_array}
use redisclient_libary.Parser.{Parsed, ParseResult, completed, uncompleted, error, parse, result}
use redisclient_libary.Socket.{ErrorCode}
use redisclient_libary.Client.{is_subscribed_state, ◌>>=◌, lift}
use redisclient_libary.Client.Async.{
  OnError, Async, Run, Calls, reply, invoke, process_message, pop_handler, call_front, find_key,
  post_single_shot, post_messages, dispatch, process_array, do_process_message, is_aborted,
  is_message, is_subscription, is_empty,
}
use redisclient_libary.Client.Async.Loops.{read_round, read_loop, async_read, read_ends}
use redisclient_libary.Client.AsyncApi.Keeping.{
  Property, Holds, Keeps, HandlersKeep, ErrorsKeep, bind-Keeps,
}
use redisclient_libary.Client.AsyncApi.Keeping.Tasks.{report-Keeps, invoke-Keeps}

module _ {H : Type 0} ⦃errors : OnError H⦄ (P : Property H) (calm : ErrorsKeep P errors)
    (call : Calls H) (keep : HandlersKeep P call) where
  popped-Keeps :
      (hs : List H) (c : Async H) → Holds P c → Keeps P (pop_handler (record c { handlers = hs }))
  unfolding pop_handler
  popped-Keeps [] c e = tt
  popped-Keeps (h ∷ hs) c e = e

  front-Keeps :
      (v : RedisValue) (hs : List H) (c : Async H)
      → Holds P c
      → Keeps P (call_front call v (record c { handlers = hs }))
  unfolding call_front
  front-Keeps v [] c e = tt
  front-Keeps v (h ∷ hs) c e =
      bind-Keeps P (invoke call h (reply v)) (λ _. pop_handler) (record c { handlers = h ∷ hs })
        (invoke-Keeps P calm call keep h (reply v) (record c { handlers = h ∷ hs }) e)
        λ _ d f. popped-Keeps d.handlers d f

  single_shot-Keeps :
      (pattern value : Bytes) (found : Option H) (c : Async H)
      → find_key pattern c.single_shot_msg_handlers ≡ found
      → Holds P c
      → Keeps P (post_single_shot pattern value c)
  unfolding post_single_shot
  single_shot-Keeps pattern value none c f e = rw (post_single_shot, f) e
  single_shot-Keeps pattern value (some h) c f e = rw (post_single_shot, f) e

  dispatch-Keeps :
      (v : RedisValue) (cmd pattern value : Bytes) (c : Async H)
      → Holds P c
      → Keeps P (dispatch call v cmd pattern value c)
  unfolding dispatch post_messages
  dispatch-Keeps v cmd pattern value c e = elim (Bool-cases (is_message cmd)) [
    | inl f ↦ rw f (
        bind-Keeps P (post_single_shot pattern value) (λ _. post_messages pattern value) c
          (single_shot-Keeps pattern value _ c refl e) λ _ d g. g)
    | inr f ↦ rw f (elim (Bool-cases (not (is_empty c.handlers) && is_subscription cmd)) [
      | inl g ↦ rw g (front-Keeps v c.handlers c e)
      | inr g ↦ rw g (report-Keeps P calm _ c e)
    ])
  ]

  process_array-Keeps :
      (v : RedisValue) (vs : Values) (c : Async H) → Holds P c → Keeps P (process_array call v vs c)
  unfolding process_array
  process_array-Keeps v nil c e = report-Keeps P calm _ c e
  process_array-Keeps v (cons _ nil) c e = report-Keeps P calm _ c e
  process_array-Keeps v (cons _ (cons _ nil)) c e = report-Keeps P calm _ c e
  process_array-Keeps v (cons _ (cons _ (cons _ nil))) c e = dispatch-Keeps v _ _ _ c e
  process_array-Keeps v (cons _ (cons _ (cons _ (cons _ nil)))) c e = dispatch-Keeps v _ _ _ c e
  process_array-Keeps v (cons _ (cons _ (cons _ (cons _ (cons _ _))))) c e =
      dispatch-Keeps v _ _ _ c e

  do_process_message-Keeps :
      (v : RedisValue) (c : Async H) → Holds P c → Keeps P (do_process_message call v c)
  unfolding do_process_message
  do_process_message-Keeps v c e = elim (Bool-cases (is_subscribed_state c.state)) [
    | inl f ↦ rw f (process_array-Keeps v (to_array v) c e)
    | inr f ↦ rw f (elim (Bool-cases (is_empty c.handlers)) [
      | inl g ↦ rw g (report-Keeps P calm _ c e)
      | inr g ↦ rw g (front-Keeps v c.handlers c e)
    ])
  ]

  module _ (build : Build) where
    round-Keeps :
        (r : Parsed) (v : ParseResult) (again : Run H Unit) (c : Async H)
        → r.result ≡ v
        → ((d : Async H) → Holds P d → Keeps P (again d))
        → Holds P c
        → Keeps P (read_round call r again c)
    unfolding read_round result process_message
    round-Keeps r completed again c f next e = rw f (
        bind-Keeps P (do_process_message call r.parser.redis_value) (λ _. again)
          (record c { parser = (result r.parser).1 })
          (do_process_message-Keeps r.parser.redis_value _ e) λ _. next)
    round-Keeps r uncompleted again c f next e = rw f e
    round-Keeps r error again c f next e = rw f (report-Keeps P calm _ _ e)

    parsed-Keeps :
        (c : Async H) (again : Parsed → Run H Unit) (r : Result Parsed)
        → ((q : Parsed) (d : Async H) → Holds P d → Keeps P (again q d))
        → Holds P c
        → Keeps P ((lift r >>= λ q. read_round call q (again q)) c)
    parsed-Keeps c again (fault f) next e = tt
    parsed-Keeps c again (ok r) next e = round-Keeps r r.result (again r) c refl (next r) e

    loop-Keeps :
        (fuel : ℕ) (bs : Bytes) (c : Async H) → Holds P c → Keeps P (read_loop build call fuel bs c)
    unfolding read_loop process_message
    loop-Keeps zero [] c e = e
    loop-Keeps (suc fuel) [] c e = e
    loop-Keeps zero (b ∷ bs) c e = tt
    loop-Keeps (suc fuel) (b ∷ bs) c e =
        parsed-Keeps c (λ r. read_loop build call fuel (drop r.consumed (b ∷ bs)))
          (parse build c.parser (b ∷ bs)) (λ r d. loop-Keeps fuel (drop r.consumed (b ∷ bs)) d) e

    async_read-Keeps :
        (describe : Option ErrorCode → Bytes) (ec : Option ErrorCode) (chunk : Bytes) (c : Async H)
        → Holds P c
        → Keeps P (async_read build describe call ec chunk c)
    unfolding async_read
    async_read-Keeps describe (some x) chunk c e = elim (Bool-cases (is_aborted (some x))) [
      | inl f ↦ rw f e
      | inr f ↦ rw f (report-Keeps P calm _ c e)
    ]
    async_read-Keeps describe none [] c e = report-Keeps P calm _ c e
    async_read-Keeps describe none (b ∷ bs) c e = loop-Keeps (length (b ∷ bs)) (b ∷ bs) c e

    pub read_ends-Keeps :
        (describe : Option ErrorCode → Bytes) (ec : Option ErrorCode) (chunk : Bytes) (c : Async H)
        → Holds P c
        → Keeps P (read_ends build describe call ec chunk c)
    unfolding read_ends
    read_ends-Keeps describe ec chunk c e =
        async_read-Keeps describe ec chunk (record c { reads = c.reads - 1 }) e
