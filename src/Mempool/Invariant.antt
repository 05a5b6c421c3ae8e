-- ===== src/Mempool/Invariant.antt =====
-- When a pool is consistent, and what each write does to the quota counters.
use arbor.Base.{
  ℕ, zero, suc, ◌+◌, ◌-◌, ◌≤◌, ◌≡◌, ◌≢◌, ◌⊎◌, refl, sym, ap, ◌∙◌, Bool, inl, inr, Option, none,
  some, Option-cases, length, arith, if◌then◌else◌,
}
use arbor.Base.Ord.{same, nat_ord, pair_ord, triple_ord, pair_cmp-eq}
use arbor.Base.BTreeMap.{BTreeMap, get, insert as map_insert, get-insert, get-remove_ne}
use arbor.Base.BTreeMap.Order.{IsOrdered, insert-IsOrdered, remove-IsOrdered, get-remove_self}
use arbor.Base.BTreeMap.Count.{count, count-insert_new, count-insert_old}
use arbor.Base.BTreeMap.Keys.{Every, insert-Every}
use arbor.Mempool.{Mempool, PoolEntry, EntryKey, SenderKey, count_of, add_entry}
use arbor.Mempool.Queue.{key_of, decrement_sender}

abbrev pub of_sender : SenderKey → EntryKey → PoolEntry → Bool
of_sender key k entry = same (k.0, k.1) key

-- How many entries a sender holds.
abbrev pub held : SenderKey → BTreeMap EntryKey PoolEntry → ℕ
held key m = count (of_sender key) m

-- A counter is kept only while it is positive.
abbrev pub counter : ℕ → Option ℕ
counter zero = none
counter (suc n) = some (suc n)

-- The maps are ordered, every entry stands under its own key, and the counter of each sender is the
-- number of entries that the sender holds.
pub record IsConsistent (p : Mempool) : Type 0 where
  pub entries_ordered : IsOrdered p.entries
  pub counts_ordered : IsOrdered p.sender_counts
  pub keyed : Every (λ k e. k ≡ key_of e) p.entries
  pub counted : (key : SenderKey) → get key p.sender_counts ≡ counter (held key p.entries)

-- The local quotas.
pub record IsWithinQuotas (p : Mempool) : Type 0 where
  pub total : length p.entries ≤ p.config.max_transactions
  pub each : (key : SenderKey) → held key p.entries ≤ p.config.max_transactions_per_sender

count_of-counter :
    (key : SenderKey) (p : Mempool) (n : ℕ)
    → get key p.sender_counts ≡ counter n
    → count_of key p ≡ n
unfolding count_of
count_of-counter key p zero h = rw (h, count_of)
count_of-counter key p (suc n) h = rw (h, count_of)

pub count_of-held :
    (key : SenderKey) {p : Mempool} → IsConsistent p → count_of key p ≡ held key p.entries
count_of-held key {p} c = count_of-counter key p (held key p.entries) (c.counted key)

counter-suc : (n : ℕ) → counter (n + 1) ≡ some (n + 1)
counter-suc n = let e : n + 1 ≡ suc n = omega arith in rw e

-- Adding an entry under a free key.
pub add_entry-IsConsistent :
    (e : PoolEntry) {p : Mempool}
    → IsConsistent p
    → get (key_of e) p.entries ≡ none
    → IsConsistent (add_entry e p)
unfolding add_entry
add_entry-IsConsistent e {p} c free = record {
  entries_ordered = insert-IsOrdered (key_of e) e p.entries c.entries_ordered;
  counts_ordered = insert-IsOrdered _ _ p.sender_counts c.counts_ordered;
  keyed = insert-Every (λ k x. k ≡ key_of x) (key_of e) e p.entries refl c.keyed;
  counted = λ key. ground (
    arith,
    get-insert key (e.domain_id, e.sender) (count_of (e.domain_id, e.sender) p + 1) p.sender_counts,
    count-insert_new (of_sender key) (key_of e) e p.entries free,
    count_of-held (e.domain_id, e.sender) c,
    c.counted key,
    counter-suc (held (e.domain_id, e.sender) p.entries),
    pair_cmp-eq key (e.domain_id, e.sender),
    pair_cmp-eq (e.domain_id, e.sender) key,
  );
}

-- Writing over the entry of a key that is taken.
pub replace-IsConsistent :
    (e old : PoolEntry) {p : Mempool}
    → IsConsistent p
    → get (key_of e) p.entries ≡ some old
    → IsConsistent (record p { entries = map_insert (key_of e) e p.entries })
replace-IsConsistent e old {p} c taken = record {
  entries_ordered = insert-IsOrdered (key_of e) e p.entries c.entries_ordered;
  counts_ordered = c.counts_ordered;
  keyed = insert-Every (λ k x. k ≡ key_of x) (key_of e) e p.entries refl c.keyed;
  counted = λ key. c.counted key ∙ ap counter (sym (held-replace key));
}
  where
    held-replace :
        (key : SenderKey) → held key (map_insert (key_of e) e p.entries) ≡ held key p.entries
    held-replace key =
        omega (
          arith,
          count-insert_old (of_sender key) (key_of e) e old p.entries c.entries_ordered taken,
        )

-- `decrement_sender` touches one counter, and drops it at zero.
decrement-counted :
    (j key : SenderKey) (n r : ℕ) (p : Mempool)
    → IsOrdered p.sender_counts
    → get key p.sender_counts ≡ counter n
    → r ≤ n
    → get j (decrement_sender key r p).sender_counts
      ≡ (if same j key then counter (n - r) else get j p.sender_counts)
unfolding decrement_sender
decrement-counted j key zero r p s h le = ground (arith, pair_cmp-eq j key)
decrement-counted j key (suc n) r p s h le = elim (positive (suc n - r)) [
  | inl e ↦ ground (
    arith,
    e,
    get-remove_ne j key p.sender_counts,
    get-remove_self key p.sender_counts s,
    pair_cmp-eq j key,
  )
  | inr (m, e) ↦ ground (arith, e, get-insert j key (suc n - r) p.sender_counts, pair_cmp-eq j key)
]
  where
    positive : (n : ℕ) → (n ≡ 0) ⊎ ((m : ℕ) × (n ≡ suc m))
    positive zero = inl refl
    positive (suc m) = inr (m, refl)

decrement-IsOrdered :
    (key : SenderKey) (r : ℕ) (p : Mempool)
    → IsOrdered p.sender_counts
    → IsOrdered (decrement_sender key r p).sender_counts
unfolding decrement_sender
decrement-IsOrdered key r p s = elim (Option-cases (get key p.sender_counts)) [
  | inl e ↦ ground (arith, e)
  | inr (n, e) ↦ ground (
    arith,
    e,
    remove-IsOrdered key p.sender_counts s,
    insert-IsOrdered key (n - r) p.sender_counts s,
  )
]

-- It leaves the rest of the pool alone.
pub decrement-same :
    (key : SenderKey) (r : ℕ) (p : Mempool)
    → ((decrement_sender key r p).entries ≡ p.entries)
      × ((decrement_sender key r p).chain_ids ≡ p.chain_ids)
      × ((decrement_sender key r p).used_chain_ids ≡ p.used_chain_ids)
      × ((decrement_sender key r p).config ≡ p.config)
unfolding decrement_sender
decrement-same key r p = ground arith

-- Taking `r` entries of one sender out, with its counter lowered by as many.
pub drop-IsConsistent :
    (key : SenderKey) (r : ℕ) (m : BTreeMap EntryKey PoolEntry) {p : Mempool}
    → IsConsistent p
    → IsOrdered m
    → Every (λ k e. k ≡ key_of e) m
    → held key m + r ≡ held key p.entries
    → ((j : SenderKey) → j ≢ key → held j m ≡ held j p.entries)
    → IsConsistent (decrement_sender key r (record p { entries = m }))
drop-IsConsistent key r m {p} c ordered keyed taken others =
    let q : Mempool = record p { entries = m } in
    let e : (decrement_sender key r q).entries ≡ m = (decrement-same key r q).0 in
    record {
      entries_ordered = rw e ordered;
      counts_ordered = decrement-IsOrdered key r q c.counts_ordered;
      keyed = rw e keyed;
      counted = λ j. rw e (
          ground (
            arith,
            decrement-counted j key (held key p.entries) r q c.counts_ordered (c.counted key)
                (omega (arith, taken)),
            taken,
            others j,
            c.counted j,
            pair_cmp-eq j key,
          ));
    }
