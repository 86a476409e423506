-- ===== src/Parser/Calls.antt =====
-- The calls that a client makes on a parser, one behind the other.
use redisclient_libary.Common.{
  Bytes, List, [], ◌∷◌, Build, Fault, assert_failed, signed_overflow, bad_get, empty_container,
  bad_range, out_of_fuel, Result, ok, fault, ◌>>=◌, ◌≡◌, ◌⊎◌, inl, inr, refl,
}
use redisclient_libary.Common.Int.{ℤ}
use redisclient_libary.Parser.Number.Faults.{IsNumberFault}
use redisclient_libary.Parser.Step.{Statement, Parser}
use redisclient_libary.Parser.Kept.{Kept, IsSaved, ParsedKept, parse-Kept}
use redisclient_libary.Parser.{Parsed, parse, result}

pub data Call : Type 0 where
  parses : Bytes → Call
  takes_result : Call

pub perform : Build → Parser → List Call → Result Parser
unfolding parse result
perform build p [] = ok p
perform build p (parses a ∷ calls) = do r ← parse build p a; perform build r.parser calls
perform build p (takes_result ∷ calls) = perform build (result p).1 calls

pub number_fault : (e : Fault) → IsNumberFault e → (e ≡ assert_failed) ⊎ (e ≡ signed_overflow)
number_fault assert_failed h = inl refl
number_fault signed_overflow h = inr refl
number_fault bad_get h = elim h [ ]
number_fault empty_container h = elim h [ ]
number_fault bad_range h = elim h [ ]
number_fault out_of_fuel h = elim h [ ]

module _ (Good : Parser → Type 0) (Enters : Statement → ℤ → Type 0) where
  -- The calls return and keep the property, or `bufferToLong` fails.
  abbrev pub PerformKept : Result Parser → Type 0
  PerformKept (ok p) = IsSaved Good Enters p
  PerformKept (fault e) = IsNumberFault e

  bind-PerformKept :
      (r : Result Parsed) (f : Parsed → Result Parser)
      → ParsedKept Good Enters r
      → ((q : Parsed) → IsSaved Good Enters q.parser → PerformKept (f q))
      → PerformKept (r >>= f)
  bind-PerformKept (ok q) f v h = h q v
  bind-PerformKept (fault e) f v h = v

  pub perform-Kept :
      (build : Build) (p : Parser) (calls : List Call)
      → Kept Good Enters
      → ((q : Parser) → IsSaved Good Enters q → IsSaved Good Enters (result q).1)
      → IsSaved Good Enters p
      → PerformKept (perform build p calls)
  unfolding perform
  perform-Kept build p [] k h v = v
  perform-Kept build p (takes_result ∷ calls) k h v =
      perform-Kept build (result p).1 calls k h (h p v)
  perform-Kept build p (parses a ∷ calls) k h v =
      bind-PerformKept (parse build p a) (λ r. perform build r.parser calls)
        (parse-Kept Good Enters k build p a v) λ q w. perform-Kept build q.parser calls k h w
