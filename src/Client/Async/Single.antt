-- ===== src/Client/Async/Single.antt =====
-- A connected client with one handler that waits, and the reply that it waits for.
use redisclient_libary.Common.{
  Bytes, List, [], ◌∷◌, ◌++◌, drop-within, drop, ℕ, length, none, Option, Build, inl, inr, ◌⊎◌, ◌≡◌,
  refl, ap, ◌∙◌, sym, arith,
}
use redisclient_libary.Parser.Step.{Parser}
use redisclient_libary.Parser.{result}
use redisclient_libary.Parser.Print.{Reply, meaning}
use redisclient_libary.Parser.Delivery.{IsIdle}
use redisclient_libary.Parser.Bounds.{parse_bounds}
use redisclient_libary.Parser.Split.{parse-IsSplit}
use redisclient_libary.Parser.Yields.{Yields, nothing, next, Yields-rest}
use redisclient_libary.Socket.{ErrorCode}
use redisclient_libary.Client.{Ended, returned}
use redisclient_libary.Client.Async.{OnError, Async, Calls, Argument, Task, reply}
use redisclient_libary.Client.Async.Loops.{async_read, read_ends, read_loop}
use redisclient_libary.Client.Async.Answers.{IsPosting, serving, read_loop-completed, read_loop-nil}
use redisclient_libary.Client.Async.Feeding.{read_loop-part}
use redisclient_libary.Client.Async.Chunks.{reading}

both-empty : (xs ys : Bytes) → xs ++ ys ≡ [] → (xs ≡ []) × (ys ≡ [])
both-empty [] ys e = (refl, e)
both-empty (x ∷ xs) ys e = absurd (cc e)

nothing_left :
    (build : Build) (p : Parser) (stream : Bytes)
    → Yields build p stream []
    → (stream ≡ []) × IsIdle p
nothing_left build p _ (nothing idle) = (refl, idle)

module _ {H : Type 0} ⦃errors : OnError H⦄ (call : Calls H) (new : H → Argument → List (Task H))
    (notes : H → Argument → List H) (posting : IsPosting call new notes) (c : Async H)
    (build : Build) (describe : Option ErrorCode → Bytes) where
  -- The handler has got the reply, behind which nothing is to come, or the parser waits for the rest.
  abbrev pub ReadsOne :
      Reply
      → H
      → Bytes
      → List (H × Argument)
      → List (Task H)
      → List H
      → Ended (Async H) (Unit {0})
      → Type 0
  ReadsOne r h stream calls tasks marks ended =
      ((p : Parser) × IsIdle p
        × (stream ≡ [])
        × (ended
            ≡ returned tt (
                reading c p [] (calls ++ (h, reply (meaning r)) ∷ [])
                  (tasks ++ new h (reply (meaning r))) (marks ++ notes h (reply (meaning r))))))
      ⊎ ((p : Parser) × Yields build p stream (r ∷ [])
          × (ended ≡ returned tt (reading c p (h ∷ []) calls tasks marks)))

  pub read_ends-ReadsOne :
      (b : ℕ) (bs stream : Bytes) (p : Parser) (r : Reply) (h : H) (calls : List (H × Argument))
      (tasks : List (Task H)) (marks : List H)
      → Yields build p ((b ∷ bs) ++ stream) (r ∷ [])
      → ReadsOne r h stream calls tasks marks
          (read_ends build describe call none (b ∷ bs) (reading c p (h ∷ []) calls tasks marks))
  unfolding read_ends async_read
  read_ends-ReadsOne b bs stream p _ h calls tasks marks (next r n q e pos v y) =
      let c' = record c { reads = 0 } in
      elim (parse-IsSplit build p b bs stream _ refl e) [
        | inl whole ↦
            let (_, high, _) = parse_bounds build p b bs _ whole in
            let (at_end, idle) = nothing_left build (result q).1 (drop n ((b ∷ bs) ++ stream)) y in
            let (rest, end) =
              both-empty (drop n (b ∷ bs)) stream
                (sym (drop-within n (b ∷ bs) stream high) ∙ at_end) in
            inl (
              (result q).1,
              idle,
              end,
              read_loop-completed call new notes posting c' build (length bs) (b ∷ bs) p h [] calls
                    tasks marks n q (omega arith) whole
                  ∙ ap
                      (λ x. read_loop build call (length bs) x (
                        serving c' (result q).1 [] (calls ++ (h, reply q.redis_value) ∷ [])
                          (tasks ++ new h (reply q.redis_value))
                          (marks ++ notes h (reply q.redis_value))))
                      rest
                  ∙ read_loop-nil call build (length bs) (
                      serving c' (result q).1 [] (calls ++ (h, reply q.redis_value) ∷ [])
                        (tasks ++ new h (reply q.redis_value))
                        (marks ++ notes h (reply q.redis_value)))
                  ∙ ap
                      (λ x. returned tt (
                        reading c (result q).1 [] (calls ++ (h, reply x) ∷ [])
                          (tasks ++ new h (reply x)) (marks ++ notes h (reply x))))
                      v,
            )
        | inr split ↦ inr (
          split.part.parser,
          Yields-rest build p b bs stream r [] n q split v y,
          read_loop-part call new notes posting c' build [] (length bs) b bs p (h ∷ []) calls tasks
              marks split.part split.first_part split.asks,
        )
      ]
