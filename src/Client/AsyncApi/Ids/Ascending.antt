-- ===== src/Client/AsyncApi/Ids/Ascending.antt =====
-- Lists of message handlers whose ids ascend.
use redisclient_libary.Common.{
  Bytes, ◌&&◌, eq_bytes, List, [], ◌∷◌, ◌++◌, ℕ, ◌+◌, ◌%◌, ◌^◌, ◌<◌, ◌≤◌, ◌==◌, ◌≡◌, Bool-cases,
  inl, inr, arith,
}
use redisclient_libary.Client.Async.{OnError, Calls}
use redisclient_libary.Client.Async.Subscriptions.{erase_handle}
use redisclient_libary.Client.AsyncApi.Keeping.{Property, HandlersKeep, ErrorsKeep}

module _ {H : Type 0} where
  -- The ids of the entries ascend from `low` on, below `high`; so no two are the same.
  abbrev pub Ascends : ℕ → List (Bytes × (ℕ × H)) → ℕ → Type 0
  Ascends low [] high = low ≤ high
  Ascends low ((k, (id, h)) ∷ entries) high = (low ≤ id) × Ascends (id + 1) entries high

  Ascends-lower :
      (low low' : ℕ) (entries : List (Bytes × (ℕ × H))) (high : ℕ)
      → low ≤ low'
      → Ascends low' entries high
      → Ascends low entries high
  Ascends-lower low low' [] high l a = omega (arith, l, a)
  Ascends-lower low low' ((k, (id, h)) ∷ entries) high l (m, a) = (omega (arith, l, m), a)

  append-Ascends :
      (low : ℕ) (entries : List (Bytes × (ℕ × H))) (high : ℕ) (channel : Bytes) (h : H)
      → Ascends low entries high
      → Ascends low (entries ++ (channel, (high, h)) ∷ []) (high + 1)
  append-Ascends low [] high channel h a = (a, omega arith)
  append-Ascends low ((k, (id, g)) ∷ entries) high channel h (l, a) =
      (l, append-Ascends (id + 1) entries high channel h a)

  -- At most so many ids were given out.
  abbrev pub IssuedBelow : ℕ → Property H
  IssuedBelow k s entries seq marks = Ascends 0 entries seq × (seq ≤ k)

  abbrev pub HandlersIssueNone : Calls H → Type 0
  HandlersIssueNone call = (k : ℕ) → HandlersKeep (IssuedBelow k) call

  abbrev pub ErrorsIssueNone : OnError H → Type 0
  ErrorsIssueNone e = (k : ℕ) → ErrorsKeep (IssuedBelow k) e

  pub issue-IssuedBelow :
      (k : ℕ) (entries : List (Bytes × (ℕ × H))) (seq : ℕ) (channel : Bytes) (h : H)
      → k + 1 < 2 ^ 64
      → Ascends 0 entries seq × (seq ≤ k)
      → Ascends 0 (entries ++ (channel, (seq, h)) ∷ []) ((seq + 1) % 2 ^ 64)
        × ((seq + 1) % 2 ^ 64 ≤ k + 1)
  issue-IssuedBelow k entries seq channel h small (a, l) =
      let next : (seq + 1) % 2 ^ 64 ≡ seq + 1 = omega (arith, small, l) in
      rw next (append-Ascends 0 entries seq channel h a, omega (arith, l))

module _ {H : Type 0} ⦃errors : OnError H⦄ where
  pub erase_handle-Ascends :
      (low : ℕ) (entries : List (Bytes × (ℕ × H))) (high id : ℕ) (channel : Bytes)
      → Ascends low entries high
      → Ascends low (erase_handle id channel entries) high
  erase_handle-Ascends low [] high id channel a = a
  erase_handle-Ascends low ((k, (i, g)) ∷ entries) high id channel (l, a) =
      let more = erase_handle-Ascends (i + 1) entries high id channel a in
      elim (Bool-cases (eq_bytes k channel && (i == id))) [
        | inl e ↦ rw e (Ascends-lower low (i + 1) _ high (omega (arith, l)) more)
        | inr e ↦ rw e (l, more)
      ]
