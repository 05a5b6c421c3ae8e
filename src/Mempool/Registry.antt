-- ===== src/Mempool/Registry.antt =====
-- `Mempool::register_domain`: chain IDs are non-zero, fixed per domain, and never shared.
use arbor.Base.{
  Result, Result-cases, ℕ, ◌≡◌, ◌≢◌, ◌⊎◌, inl, inr, none, some, Option-cases, Bool-cases, arith, ok,
  err, ◌==◌,
}
use arbor.Base.Ord.{nat_ord, nat_cmp_eq}
use arbor.Base.BTreeMap.{get, insert, contains_key, get-insert}
use arbor.Mempool.{Mempool, MempoolError, register_domain}

-- No domain has the chain ID zero, no two domains share one, and those in use are known.
pub record IsRouted (p : Mempool) : Type 0 where
  pub nonzero : (d c : ℕ) → get d p.chain_ids ≡ some c → c ≢ 0
  pub unique : (d e c : ℕ) → get d p.chain_ids ≡ some c → get e p.chain_ids ≡ some c → d ≡ e
  pub used : (d c : ℕ) → get d p.chain_ids ≡ some c → get c p.used_chain_ids ≡ some tt

module _ (d c : ℕ) (p : Mempool) where
  -- The new pool of a registration that writes.
  bound : Mempool
  bound = record p {
    chain_ids = insert d c p.chain_ids;
    used_chain_ids = insert c tt p.used_chain_ids;
  }

  bound-IsRouted :
      IsRouted p → c ≢ 0 → get d p.chain_ids ≡ none → get c p.used_chain_ids ≡ none → IsRouted bound
  unfolding bound
  bound-IsRouted r nz new free = record {
    nonzero = λ e i h. ground (arith, get-insert e d c p.chain_ids, r.nonzero e i, nz, h);
    unique = λ e f i h k. ground (
      arith,
      get-insert e d c p.chain_ids,
      get-insert f d c p.chain_ids,
      r.unique e f i,
      r.used e i,
      r.used f i,
      nat_cmp_eq e d,
      nat_cmp_eq f d,
      free,
      h,
      k,
    );
    used = λ e i h. ground (
      arith,
      get-insert e d c p.chain_ids,
      get-insert i c tt p.used_chain_ids,
      nat_cmp_eq i c,
      r.used e i,
      h,
    );
  }

  -- A registration writes only an unused, non-zero ID for a domain that has none.
  register-cases :
      ((register_domain d c p).0 ≡ p)
      ⊎ ((c ≢ 0)
          × (get d p.chain_ids ≡ none)
          × (get c p.used_chain_ids ≡ none)
          × ((register_domain d c p).0 ≡ bound))
  unfolding register_domain contains_key bound
  register-cases = elim (Option-cases (get d p.chain_ids)) [
    | inl new ↦ elim (Option-cases (get c p.used_chain_ids)) [
      | inl free ↦ elim (Bool-cases (c == 0)) [
        | inl zero ↦ inl (ground (arith, zero))
        | inr nz ↦ inr (ground (arith, nz), new, free, ground (arith, nz, new, free))
      ]
      | inr (u, taken) ↦ inl (ground (arith, new, taken))
    ]
    | inr (old, known) ↦ inl (ground (arith, known))
  ]

  -- Whatever the answer, a registration keeps the chain IDs non-zero and unique.
  pub register_domain-IsRouted : IsRouted p → IsRouted (register_domain d c p).0
  register_domain-IsRouted r = elim register-cases [
    | inl same_pool ↦ rw same_pool r
    | inr (nz, new, free, wrote) ↦ rw wrote (bound-IsRouted r nz new free)
  ]

  register-ok :
      (register_domain d c p).1 ≡ ok tt
      → (c ≢ 0) × (get d (register_domain d c p).0.chain_ids ≡ some c)
  unfolding register_domain contains_key
  register-ok h = elim (Option-cases (get d p.chain_ids)) [
    | inl new ↦ elim (Option-cases (get c p.used_chain_ids)) [
      | inl free ↦ ground (arith, new, free, get-insert d d c p.chain_ids, nat_cmp_eq d d)
      | inr (u, taken) ↦ absurd (ground (arith, new, taken))
    ]
    | inr (old, known) ↦ ground (arith, known)
  ]

  register-err :
      (x : MempoolError) → (register_domain d c p).1 ≡ err x → (register_domain d c p).0 ≡ p
  unfolding register_domain contains_key
  register-err x h = elim (Option-cases (get d p.chain_ids)) [
    | inl new ↦ elim (Option-cases (get c p.used_chain_ids)) [
      | inl free ↦ ground (arith, new, free)
      | inr (u, taken) ↦ ground (arith, new, taken)
    ]
    | inr (old, known) ↦ ground (arith, known)
  ]

  -- A domain that has a chain ID keeps it, whatever is registered.
  pub register_domain-keeps :
      (e i : ℕ) → get e p.chain_ids ≡ some i → get e (register_domain d c p).0.chain_ids ≡ some i
  register_domain-keeps e i h = elim register-cases [
    | inl same_pool ↦ rw same_pool h
    | inr (nz, new, free, wrote) ↦
        rw wrote
          (unfold bound in ground (arith, get-insert e d c p.chain_ids, nat_cmp_eq e d, new, h))
  ]

  -- What the answer says of the new pool: the domain has the non-zero ID, or nothing changed.
  abbrev pub AnswerMeans : Result MempoolError (Unit {0}) → Mempool → Type 0
  AnswerMeans (ok _) p' = (c ≢ 0) × (get d p'.chain_ids ≡ some c)
  AnswerMeans (err _) p' = p' ≡ p

  -- A registration that succeeds leaves the domain with the non-zero ID that it asked for, and one that is
  -- refused leaves the pool as it was.
  register_domain_lem : AnswerMeans (register_domain d c p).1 (register_domain d c p).0
  register_domain_lem = elim (Result-cases (register_domain d c p).1) [
    | inl (u, e) ↦ rw e (register-ok e)
    | inr (x, e) ↦ rw e (register-err x e)
  ]
