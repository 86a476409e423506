-- ===== src/Client/Ends.antt =====
-- How an operation of a client may end: in which states, whether it returns or throws, and in which
-- faults.
use redisclient_libary.Common.{Fault}
use redisclient_libary.Client.{Ended, returned, thrown, crashed, waiting, ◌>>=◌}

abbrev pub Ends : {S A : Type 0} → (Fault → Type 0) → (S → Type 0) → Ended S A → Type 0
Ends F P (returned x s) = P s
Ends F P (thrown e s) = P s
Ends F P (crashed f) = F f
Ends F P waiting = ⊥

module _ {S : Type 0} (F : Fault → Type 0) (P : S → Type 0) where
  follow-Ends :
      {A B : Type 0} (next : A → S → Ended S B) (e : Ended S A)
      → Ends F P e
      → ((x : A) (s : S) → P s → Ends F P (next x s))
      → Ends {A = B} F P (elim e [
        | returned x t ↦ next x t
        | thrown x t ↦ thrown x t
        | crashed f ↦ crashed f
        | waiting ↦ waiting
      ])
  follow-Ends next (returned x s) k h = h x s k
  follow-Ends next (thrown e s) k h = k
  follow-Ends next (crashed f) k h = k
  follow-Ends next waiting k h = k

  pub bind-Ends :
      {A B : Type 0} (run : S → Ended S A) (next : A → S → Ended S B) (s : S)
      → Ends F P (run s)
      → ((x : A) (t : S) → P t → Ends F P (next x t))
      → Ends F P ((run >>= next) s)
  bind-Ends run next s k h = follow-Ends next (run s) k h
