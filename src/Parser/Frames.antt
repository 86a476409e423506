-- ===== src/Parser/Frames.antt =====
-- The two stacks of arrays as one: the arrays that are open, and what a completed value does to them.
use redisclient_libary.Common.{List, [], ◌∷◌, ℕ, zero, suc, Build, debug, release, ok, ◌≡◌, refl}
use redisclient_libary.Common.Int.{ℤ, pos}
use redisclient_libary.Value.{RedisValue, is_array, Values, array_value, get_array, push_back}
use redisclient_libary.Parser.Step.{Parser}
use redisclient_libary.Parser.Complete.{complete, unwind, Unwound, push_top, decrement}

-- An open array: the items it has got, and how many are to come behind the next one.
pub record Frame : Type 0 where
  pub items : Values
  pub later : ℕ

abbrev pub sizes : List Frame → List ℤ
sizes [] = []
sizes (f ∷ fs) = pos (suc f.later) ∷ sizes fs

abbrev pub values : List Frame → List RedisValue
values [] = []
values (f ∷ fs) = array_value f.items ∷ values fs

-- A value goes into the innermost array. An array that is full is a value for the one around it.
abbrev close_frames : RedisValue → ℕ → Values → List Frame → RedisValue × List Frame
close_frames v (suc n) vs fs = (v, record { items = vs; later = n } ∷ fs)
close_frames v zero vs [] = (array_value vs, [])
close_frames v zero vs (f ∷ fs) =
    close_frames (array_value vs) f.later (push_back f.items (array_value vs)) fs

abbrev pub plug : RedisValue → List Frame → RedisValue × List Frame
plug v [] = (v, [])
plug v (f ∷ fs) = close_frames v f.later (push_back f.items v) fs

-- The parser with these arrays open.
abbrev pub with_frames : Parser → List Frame → Parser
with_frames p fs = record p { array_sizes = sizes fs; array_values = values fs }

unwound : RedisValue × List Frame → Unwound
unwound (v, fs) = record { sizes = sizes fs; values = values fs; value = v }

push_top-frame :
    (build : Build) (v : RedisValue) (vs : Values) (rest : List RedisValue)
    → push_top build v (array_value vs ∷ rest) ≡ ok (array_value (push_back vs v) ∷ rest)
unfolding push_top get_array is_array
push_top-frame debug v vs rest = refl
push_top-frame release v vs rest = refl

unwind-close_frames :
    (build : Build) (fs : List Frame) (v : RedisValue) (n : ℕ) (vs : Values)
    → unwind build v (pos (suc n) ∷ sizes fs) (array_value vs ∷ values fs)
      ≡ ok (unwound (close_frames v n vs fs))
unfolding unwind unwound decrement
unwind-close_frames build [] v (suc n) vs = refl
unwind-close_frames build (f ∷ fs) v (suc n) vs = refl
unwind-close_frames build [] v zero vs = refl
unwind-close_frames build (f ∷ fs) v zero vs =
    let rest =
      unwind-close_frames build fs (array_value vs) f.later (push_back f.items (array_value vs)) in
    rw (push_top-frame build (array_value vs) f.items (values fs)) rest

-- A completed value does to the stacks of sizes and of arrays what `plug` does to the open arrays; no
-- container is empty, and no value is taken for an array that is none.
pub complete-plug :
    (build : Build) (p : Parser) (fs : List Frame)
    → complete build (with_frames p fs)
      ≡ ok (
          with_frames
            (record p { redis_value = (plug p.redis_value fs).0 })
            (plug p.redis_value fs).1)
unfolding complete unwound
complete-plug build p [] = refl
complete-plug build p (f ∷ fs) =
    rw
      (
        push_top-frame build p.redis_value f.items (values fs),
        unwind-close_frames build fs p.redis_value f.later (push_back f.items p.redis_value),
      )
      refl
