-- ===== src/Mempool/Ready.antt =====
-- `Mempool::ready`: the loop ends, and returns the executable prefix of one sender's queue.
use arbor.Base.{
  ℕ, zero, suc, ◌+◌, ◌-◌, ◌^◌, ◌<◌, ◌≡◌, ◌⊎◌, inl, inr, none, some, Option-cases, Bool-cases, List,
  [], ◌∷◌, length, ltb, arith,
}
use arbor.Base.Ord.{triple_ord}
use arbor.Base.BTreeMap.{get}
use arbor.Primitives.{Address, DomainId}
use arbor.Mempool.{Mempool, PoolEntry}
use arbor.Mempool.Queue.{ready_loop, ready}

module _ (d : DomainId) (a : Address) (p : Mempool) where
  -- The entries stand under consecutive nonces from `nonce` on.
  abbrev pub IsRun : ℕ → List PoolEntry → Type 0
  IsRun nonce [] = Unit
  IsRun nonce (e ∷ es) = (get (d, a, nonce) p.entries ≡ some e) × IsRun (nonce + 1) es

  -- Nothing follows: the next nonce is missing, or there is no next `u64`.
  abbrev pub IsLast : ℕ → Type 0
  IsLast nonce = (get (d, a, nonce) p.entries ≡ none) ⊎ (nonce ≡ 2 ^ 64)

  ready_loop_total :
      (fuel nonce : ℕ)
      → fuel + nonce ≡ 2 ^ 64
      → 0 < fuel
      → (es : List PoolEntry) × (ready_loop fuel d a nonce p ≡ some es)
        × IsRun nonce es
        × IsLast (nonce + length es)
  unfolding ready_loop
  ready_loop_total zero nonce h pos = absurd (omega arith)
  ready_loop_total (suc fuel) nonce h pos = elim (Option-cases (get (d, a, nonce) p.entries)) [
    | inl gap ↦
        let e : nonce + 0 ≡ nonce = omega arith in ([], rw (gap, ready_loop), tt, inl (rw e gap))
    | inr (x, found) ↦ elim (Bool-cases (ltb (nonce + 1) (2 ^ 64))) [
      | inl more ↦
          let (es, run, steps, last) =
            ready_loop_total fuel (nonce + 1) (omega arith) (ground arith) in
          let e : nonce + suc (length es) ≡ nonce + 1 + length es = omega arith in
          (x ∷ es, rw (found, more, run, ready_loop), (found, steps), rw e last)
      | inr end ↦ (x ∷ [], rw (found, end, ready_loop), (found, tt), inr (ground arith))
    ]
  ]

  -- For every `u64` state nonce `ready` ends. It returns entries of the sender under consecutive nonces
  -- from the state's on, and stops only where the next nonce is missing or is no `u64`.
  pub ready_total :
      (state_nonce : ℕ)
      → state_nonce < 2 ^ 64
      → (es : List PoolEntry) × (ready d a state_nonce p ≡ some es)
        × IsRun state_nonce es
        × IsLast (state_nonce + length es)
  unfolding ready
  ready_total n h = ready_loop_total (2 ^ 64 - n) n (omega arith) (omega arith)
