-- ===== src/Mempool/Admission.antt =====
-- `Mempool::insert` keeps the pool consistent and within its quotas.
use arbor.Base.{
  ℕ, ◌+◌, ◌<◌, ◌≡◌, refl, true, inl, inr, none, some, Option-cases, length, arith, Result-cases,
}
use arbor.Base.Ord.{nat_ord, pair_ord, triple_ord, pair_cmp-eq}
use arbor.Base.BTreeMap.{BTreeMap, get, insert as map_insert}
use arbor.Base.BTreeMap.Count.{count, count-all, count-insert_new, count-insert_old}
use arbor.Primitives.{Bytes, DomainId}
use arbor.Mempool.{
  Mempool, PoolEntry, EntryKey, TransactionCodec, validate, place, insert, add_entry, count_of, new,
  MempoolConfig,
}
use arbor.Mempool.Queue.{key_of}
use arbor.Mempool.Invariant.{
  IsConsistent, IsWithinQuotas, of_sender, count_of-held, add_entry-IsConsistent,
  replace-IsConsistent,
}

-- An empty pool.
pub new-IsConsistent :
    (config : MempoolConfig) → IsConsistent (new config) × IsWithinQuotas (new config)
unfolding new get count
new-IsConsistent config = (
  record { entries_ordered = tt; counts_ordered = tt; keyed = tt; counted = λ key. refl },
  record { total = omega arith; each = λ key. omega arith },
)

place-IsConsistent :
    (e : PoolEntry) (n : ℕ) {p : Mempool} → IsConsistent p → IsConsistent (place e n p).0
unfolding place
place-IsConsistent e n {p} c = elim (Option-cases (get (key_of e) p.entries)) [
  | inl free ↦ ground (arith, free, c, add_entry-IsConsistent e c free)
  | inr (old, taken) ↦ ground (arith, taken, c, replace-IsConsistent e old c taken)
]

-- Whatever the envelope and whatever the answer, `insert` keeps a consistent pool consistent.
pub insert-IsConsistent :
    (codec : TransactionCodec) (d : DomainId) (envelope : Bytes) (n : ℕ) {p : Mempool}
    → IsConsistent p
    → IsConsistent (insert codec d envelope n p).0
unfolding insert
insert-IsConsistent codec d envelope n {p} c = elim (Result-cases (validate codec d envelope n p)) [
  | inl ((tx, sender, hash), e) ↦ rw (e, insert) (place-IsConsistent _ n c)
  | inr (x, e) ↦ rw (e, insert) c
]

-- A pool with one more entry, or with an entry written over, in numbers.
length-insert_new :
    (e : PoolEntry) (m : BTreeMap EntryKey PoolEntry)
    → get (key_of e) m ≡ none
    → length (map_insert (key_of e) e m) ≡ length m + 1
length-insert_new e m free = omega (
  arith,
  count-all (map_insert (key_of e) e m),
  count-all m,
  count-insert_new (λ _ _. true) (key_of e) e m free,
)

length-insert_old :
    (e old : PoolEntry) {p : Mempool}
    → IsConsistent p
    → get (key_of e) p.entries ≡ some old
    → length (map_insert (key_of e) e p.entries) ≡ length p.entries
length-insert_old e old {p} c taken = omega (
  arith,
  count-all (map_insert (key_of e) e p.entries),
  count-all p.entries,
  count-insert_old (λ _ _. true) (key_of e) e old p.entries c.entries_ordered taken,
)

add_entry-IsWithinQuotas :
    (e : PoolEntry) {p : Mempool}
    → IsConsistent p
    → IsWithinQuotas p
    → get (key_of e) p.entries ≡ none
    → length p.entries < p.config.max_transactions
    → count_of (e.domain_id, e.sender) p < p.config.max_transactions_per_sender
    → IsWithinQuotas (add_entry e p)
unfolding add_entry
add_entry-IsWithinQuotas e {p} c q free room sender_room = record {
  total = omega (arith, length-insert_new e p.entries free);
  each = λ key. ground (
    arith,
    q.each key,
    count-insert_new (of_sender key) (key_of e) e p.entries free,
    count_of-held (e.domain_id, e.sender) c,
    pair_cmp-eq (e.domain_id, e.sender) key,
  );
}

replace-IsWithinQuotas :
    (e old : PoolEntry) {p : Mempool}
    → IsConsistent p
    → IsWithinQuotas p
    → get (key_of e) p.entries ≡ some old
    → IsWithinQuotas (record p { entries = map_insert (key_of e) e p.entries })
replace-IsWithinQuotas e old {p} c q taken = record {
  total = omega (arith, q.total, length-insert_old e old c taken);
  each = λ key. omega (
    arith,
    q.each key,
    count-insert_old (of_sender key) (key_of e) e old p.entries c.entries_ordered taken,
  );
}

place-IsWithinQuotas :
    (e : PoolEntry) (n : ℕ) {p : Mempool}
    → IsConsistent p
    → IsWithinQuotas p
    → IsWithinQuotas (place e n p).0
unfolding place
place-IsWithinQuotas e n {p} c q = elim (Option-cases (get (key_of e) p.entries)) [
  | inl free ↦ ground (arith, free, q, add_entry-IsWithinQuotas e c q free)
  | inr (old, taken) ↦ ground (arith, taken, q, replace-IsWithinQuotas e old c q taken)
]

-- `insert` keeps a consistent pool within its quotas: all transactions, and those of each sender.
pub insert-IsWithinQuotas :
    (codec : TransactionCodec) (d : DomainId) (envelope : Bytes) (n : ℕ) {p : Mempool}
    → IsConsistent p
    → IsWithinQuotas p
    → IsWithinQuotas (insert codec d envelope n p).0
unfolding insert
insert-IsWithinQuotas codec d envelope n {p} c q =
    elim (Result-cases (validate codec d envelope n p)) [
      | inl ((tx, sender, hash), e) ↦ rw (e, insert) (place-IsWithinQuotas _ n c q)
      | inr (x, e) ↦ rw (e, insert) q
    ]
