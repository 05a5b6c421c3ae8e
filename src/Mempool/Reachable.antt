-- ===== src/Mempool/Reachable.antt =====
-- The pools that a node can have: those that the operations make of a new one.
use arbor.Base.{ℕ, ◌≡◌, refl, ◌∙◌, Option-cases, inl, inr, List, [], ◌∷◌, Result-cases, arith}
use arbor.Base.Ord.{nat_ord, triple_ord}
use arbor.Base.BTreeMap.{get}
use arbor.Primitives.{Address, B256, Bytes, DomainId}
use arbor.Mempool.{
  Mempool, MempoolConfig, PoolEntry, EntryKey, BTreeSet, TransactionCodec, new, register_domain,
  validate, place, add_entry, insert,
}
use arbor.Mempool.Queue.{
  key_of, take_entry, reserve_keys, reserve_hashes, restore_entry, restore_reserved, advance_nonce,
}
use arbor.Mempool.Invariant.{IsConsistent, decrement-same}
use arbor.Mempool.Admission.{new-IsConsistent, insert-IsConsistent}
use arbor.Mempool.Removal.{advance_nonce-IsConsistent, reserve_hashes-IsConsistent}
use arbor.Mempool.Reserve.{restore_reserved-IsConsistent}
use arbor.Mempool.Registry.{IsRouted, register_domain-IsRouted}

module _ (codec : TransactionCodec) (config : MempoolConfig) where
  pub data Reachable : Mempool → Type 0 where
    created : Reachable (new config)
    registered :
        {p : Mempool} (d : DomainId) (c : ℕ) → Reachable p → Reachable (register_domain d c p).0
    inserted :
        {p : Mempool} (d : DomainId) (envelope : Bytes) (n : ℕ)
        → Reachable p
        → Reachable (insert codec d envelope n p).0
    reserved :
        {p : Mempool} (hashes : BTreeSet B256) → Reachable p → Reachable (reserve_hashes hashes p).0
    restored : {p : Mempool} (es : List PoolEntry) → Reachable p → Reachable (restore_reserved es p)
    advanced :
        {p : Mempool} (d : DomainId) (a : Address) (n : ℕ)
        → Reachable p
        → Reachable (advance_nonce d a n p).0

register_domain-queues :
    (d c : ℕ) (p : Mempool)
    → ((register_domain d c p).0.entries ≡ p.entries)
      × ((register_domain d c p).0.sender_counts ≡ p.sender_counts)
unfolding register_domain
register_domain-queues d c p = ground arith

register_domain-IsConsistent :
    (d c : ℕ) {p : Mempool} → IsConsistent p → IsConsistent (register_domain d c p).0
register_domain-IsConsistent d c {p} h =
    let (e, f) = register_domain-queues d c p in
    record {
      entries_ordered = rw e h.entries_ordered;
      counts_ordered = rw f h.counts_ordered;
      keyed = rw e h.keyed;
      counted = rw (e, f) h.counted;
    }

-- Two pools with the same chain IDs.
abbrev SameRouting : Mempool → Mempool → Type 0
SameRouting p q = (q.chain_ids ≡ p.chain_ids) × (q.used_chain_ids ≡ p.used_chain_ids)

SameRouting-IsRouted : {p q : Mempool} → SameRouting p q → IsRouted p → IsRouted q
SameRouting-IsRouted (e, f) r = record {
  nonzero = rw e r.nonzero;
  unique = rw e r.unique;
  used = rw (e, f) r.used;
}

place-SameRouting : (e : PoolEntry) (n : ℕ) (p : Mempool) → SameRouting p (place e n p).0
unfolding place add_entry
place-SameRouting e n p = elim (Option-cases (get (key_of e) p.entries)) [
  | inl free ↦ ground (arith, free)
  | inr (old, taken) ↦ ground (arith, taken)
]

insert-SameRouting :
    (codec : TransactionCodec) (d : DomainId) (envelope : Bytes) (n : ℕ) (p : Mempool)
    → SameRouting p (insert codec d envelope n p).0
unfolding insert
insert-SameRouting codec d envelope n p = elim (Result-cases (validate codec d envelope n p)) [
  | inl (t, e) ↦ rw (e, insert) (place-SameRouting _ n p)
  | inr (x, e) ↦ rw (e, insert) (refl, refl)
]

advance-SameRouting :
    (d : DomainId) (a : Address) (n : ℕ) (p : Mempool) → SameRouting p (advance_nonce d a n p).0
unfolding advance_nonce
advance-SameRouting d a n p = let (_, chains, used, _) = decrement-same (d, a) _ _ in (chains, used)

take-SameRouting : (k : EntryKey) (p : Mempool) → SameRouting p (take_entry k p)
unfolding take_entry
take-SameRouting k p = let (_, chains, used, _) = decrement-same (k.0, k.1) 1 _ in (chains, used)

reserve-SameRouting : (ks : List EntryKey) (p : Mempool) → SameRouting p (reserve_keys ks p).0
unfolding reserve_keys
reserve-SameRouting [] p = (refl, refl)
reserve-SameRouting (k ∷ ks) p = elim (Option-cases (get k p.entries)) [
  | inl absent ↦ rw (absent, reserve_keys) (reserve-SameRouting ks p)
  | inr (e, present) ↦
      let (c, u) = reserve-SameRouting ks (take_entry k p) in
      let (c', u') = take-SameRouting k p in rw (present, reserve_keys) (c ∙ c', u ∙ u')
]

hashes-SameRouting :
    (hashes : BTreeSet B256) (p : Mempool) → SameRouting p (reserve_hashes hashes p).0
unfolding reserve_hashes
hashes-SameRouting hashes p = reserve-SameRouting _ p

entry-SameRouting : (e : PoolEntry) (p : Mempool) → SameRouting p (restore_entry e p)
unfolding restore_entry
entry-SameRouting e p = ground arith

restore-SameRouting : (es : List PoolEntry) (p : Mempool) → SameRouting p (restore_reserved es p)
unfolding restore_reserved
restore-SameRouting [] p = (refl, refl)
restore-SameRouting (e ∷ es) p =
    let (c, u) = restore-SameRouting es (restore_entry e p) in
    let (c', u') = entry-SameRouting e p in (c ∙ c', u ∙ u')

new-IsRouted : (config : MempoolConfig) → IsRouted (new config)
unfolding new get
new-IsRouted config = record {
  nonzero = λ d c h. absurd (cc);
  unique = λ d e c h k. absurd (cc);
  used = λ d c h. absurd (cc);
}

-- Whatever operations made a pool of a new one, in whatever order and with whatever arguments: it is
-- consistent, and its chain IDs are non-zero and unique.
pub Reachable-IsConsistent :
    (codec : TransactionCodec) (config : MempoolConfig) {p : Mempool}
    → Reachable codec config p
    → IsConsistent p × IsRouted p
Reachable-IsConsistent codec config created = ((new-IsConsistent config).0, new-IsRouted config)
Reachable-IsConsistent codec config (registered d c r) =
    let (h, g) = Reachable-IsConsistent codec config r in
    (register_domain-IsConsistent d c h, register_domain-IsRouted d c _ g)
Reachable-IsConsistent codec config (inserted d envelope n r) =
    let (h, g) = Reachable-IsConsistent codec config r in
    (
      insert-IsConsistent codec d envelope n h,
      SameRouting-IsRouted (insert-SameRouting codec d envelope n _) g,
    )
Reachable-IsConsistent codec config (reserved hashes r) =
    let (h, g) = Reachable-IsConsistent codec config r in
    (reserve_hashes-IsConsistent hashes h, SameRouting-IsRouted (hashes-SameRouting hashes _) g)
Reachable-IsConsistent codec config (restored es r) =
    let (h, g) = Reachable-IsConsistent codec config r in
    (restore_reserved-IsConsistent es h, SameRouting-IsRouted (restore-SameRouting es _) g)
Reachable-IsConsistent codec config (advanced d a n r) =
    let (h, g) = Reachable-IsConsistent codec config r in
    (advance_nonce-IsConsistent d a n h, SameRouting-IsRouted (advance-SameRouting d a n _) g)
