-- ===== src/Parser/Yields.antt =====
-- The values that a parser finds in a stream.
use mathlib.Core.Path.{subst}
use redisclient_libary.Common.{
  Bytes, List, [], ◌∷◌, ◌++◌, drop-over, ℕ, ◌+◌, ◌<◌, length, drop, All, Build, ok, ◌≡◌, refl, ap,
  ◌∙◌, sym,
}
use redisclient_libary.Parser.Step.{Parser}
use redisclient_libary.Parser.Print.{Reply, print, IsSendable, meaning}
use redisclient_libary.Parser.Stream.{printed, drop-print, print-pos}
use redisclient_libary.Parser.Delivery.{IsIdle}
use redisclient_libary.Parser.Replies.{parse-print}
use redisclient_libary.Parser.Bounds.{parse_bounds}
use redisclient_libary.Parser.Split.{IsSplit}
use redisclient_libary.Parser.{completed, parse, result}

-- The parser finds the values of the replies in the stream, one behind the other, and nothing else.
pub data Yields (build : Build) : Parser → Bytes → List Reply → Type 0 where
  nothing : {p : Parser} → IsIdle p → Yields build p [] []
  next :
      {p : Parser} {stream : Bytes} {rs : List Reply} (r : Reply) (n : ℕ) (q : Parser)
      → parse build p stream ≡ ok (record { consumed = n; result = completed; parser = q })
      → 0 < n
      → q.redis_value ≡ meaning r
      → Yields build (result q).1 (drop n stream) rs
      → Yields build p stream (r ∷ rs)

pub printed-Yields :
    (build : Build) (p : Parser) (rs : List Reply)
    → IsIdle p
    → All IsSendable rs
    → Yields build p (printed rs []) rs
unfolding result
printed-Yields build p [] idle h = nothing idle
printed-Yields build p (r ∷ rs) idle (h, hs) =
    let d = parse-print build p r (printed rs []) idle h in
    next r (length (print r [])) d.parser d.found (print-pos r) d.value (
      subst (λ x. Yields build (result d.parser).1 x rs) (sym (drop-print r (printed rs [])))
        (printed-Yields build (result d.parser).1 rs
          (record { no_state = d.idle.no_state; no_array = d.idle.no_array }) hs))

pub Yields-rest :
    (build : Build) (p : Parser) (b : ℕ) (bs stream : Bytes) (r : Reply) (rs : List Reply) (n : ℕ)
    (q : Parser)
    → (split : IsSplit build p
        (b ∷ bs)
        stream
        (record { consumed = n; result = completed; parser = q }))
    → q.redis_value ≡ meaning r
    → Yields build (result q).1 (drop n ((b ∷ bs) ++ stream)) rs
    → Yields build split.part.parser stream (r ∷ rs)
Yields-rest build p b bs stream r rs n q split v y =
    let last = split.last in
    let (_, _, all) = parse_bounds build p b bs split.part split.first_part in
    let where_next : drop n ((b ∷ bs) ++ stream) ≡ drop last.consumed stream =
      ap (λ k. drop k ((b ∷ bs) ++ stream))
        (split.both ∙ ap (λ k. k + last.consumed) (all split.asks))
      ∙ drop-over (length (b ∷ bs)) last.consumed (b ∷ bs) stream refl in
    next r last.consumed q
      (split.last_part
        ∙ ap (λ x. ok (record { consumed = last.consumed; result = x; parser = last.parser }))
            split.done
        ∙ ap (λ x. ok (record { consumed = last.consumed; result = completed; parser = x }))
            (sym split.same_parser))
      split.reads v (subst (λ x. Yields build (result q).1 x rs) where_next y)
