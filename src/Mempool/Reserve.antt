-- ===== src/Mempool/Reserve.antt =====
-- What `reserve_hashes` hands out, and what `restore_reserved` takes back.
use arbor.Base.{
  ◌≡◌, ◌⊎◌, refl, ap, ◌∙◌, Bool, inl, inr, none, some, Option-cases, Bool-cases, List, [], ◌∷◌,
  arith, All,
}
use Prim.Native.Nat.Ordering.{lt}
use arbor.Base.Ord.{same, nat_ord, pair_ord, triple_ord, triple_cmp, triple_cmp-eq}
use arbor.Base.BTreeMap.{BTreeMap, get, contains_key, get-insert, get-remove_ne}
use arbor.Base.BTreeMap.Order.{Above, IsOrdered}
use arbor.Base.BTreeMap.Keys.{Every}
use arbor.Base.BTreeMap.Filter.{keys_where, drop_where, values_where, remove_keys-keys_where}
use arbor.Primitives.{B256}
use arbor.Mempool.{Mempool, PoolEntry, EntryKey, BTreeSet, add_entry}
use arbor.Mempool.Queue.{
  key_of, is_hashed, take_entry, reserve_keys, reserve_hashes, restore_entry, restore_reserved,
  sorted_insert, sort_by_key,
}
use arbor.Mempool.Invariant.{IsConsistent, add_entry-IsConsistent}
use arbor.Mempool.Removal.{reserve_keys-entries, take-entries}

-- Every entry of `m` is found in `p`.
abbrev IsFound : Mempool → BTreeMap EntryKey PoolEntry → Type 0
IsFound p m = Every (λ k e. get k p.entries ≡ some e) m

IsFound-take :
    (k : EntryKey) (p : Mempool) (m : BTreeMap EntryKey PoolEntry)
    → Above k m
    → IsFound p m
    → IsFound (take_entry k p) m
IsFound-take k p [] a h = tt
IsFound-take k p ((j, e) ∷ m) a h = (
  ap (get j) (take-entries k p)
      ∙ get-remove_ne j k p.entries (λ q. ground (arith, a.0, triple_cmp-eq k j, q))
      ∙ h.0,
  IsFound-take k p m a.1 h.1,
)

module _ (test : EntryKey → PoolEntry → Bool) where
  reserve_keys-values :
      (m : BTreeMap EntryKey PoolEntry) (p : Mempool)
      → IsOrdered m
      → IsFound p m
      → (reserve_keys (keys_where test m) p).1 ≡ values_where test m
  unfolding reserve_keys keys_where values_where
  reserve_keys-values [] p o h = refl
  reserve_keys-values ((k, e) ∷ m) p o h = elim (Bool-cases (test k e)) [
    | inl hit ↦
        rw (hit, h.0, reserve_keys)
          (ap (λ l. e ∷ l)
            (reserve_keys-values m (take_entry k p) o.1 (IsFound-take k p m o.0 h.1)))
    | inr miss ↦ rw miss (reserve_keys-values m p o.1 h.1)
  ]

found_tail :
    (k : EntryKey) (e : PoolEntry) (m n : BTreeMap EntryKey PoolEntry)
    → Above k n
    → Every (λ j f. get j m ≡ some f) n
    → Every (λ j f. get j ((k, e) ∷ m) ≡ some f) n
unfolding get
found_tail k e m [] a h = tt
found_tail k e m ((j, f) ∷ n) a h =
    (ground (arith, h.0, a.0, triple_cmp-eq k j, triple_cmp-eq j k), found_tail k e m n a.1 h.1)

found_self : (m : BTreeMap EntryKey PoolEntry) → IsOrdered m → Every (λ k e. get k m ≡ some e) m
found_self [] o = tt
found_self ((k, e) ∷ m) o =
    (unfold get in ground (arith, triple_cmp-eq k k), found_tail k e m m o.0 (found_self m o.1))

-- An ascending list is already sorted.
abbrev AllAbove : EntryKey → List PoolEntry → Type 0
AllAbove k es = All (λ e. triple_cmp k (key_of e) ≡ lt) es

abbrev IsAscending : List PoolEntry → Type 0
IsAscending [] = Unit
IsAscending (e ∷ es) = AllAbove (key_of e) es × IsAscending es

sorted_insert-first :
    (e : PoolEntry) (es : List PoolEntry) → AllAbove (key_of e) es → sorted_insert e es ≡ e ∷ es
unfolding sorted_insert
sorted_insert-first e [] h = refl
sorted_insert-first e (f ∷ es) h = ground (arith, h.0)

sort-IsAscending : (es : List PoolEntry) → IsAscending es → sort_by_key es ≡ es
unfolding sort_by_key
sort-IsAscending [] h = refl
sort-IsAscending (e ∷ es) h =
    ap (sorted_insert e) (sort-IsAscending es h.1) ∙ sorted_insert-first e es h.0

module _ (test : EntryKey → PoolEntry → Bool) where
  values-AllAbove :
      (k : EntryKey) (m : BTreeMap EntryKey PoolEntry)
      → Above k m
      → Every (λ j e. j ≡ key_of e) m
      → AllAbove k (values_where test m)
  unfolding values_where
  values-AllAbove k [] a h = tt
  values-AllAbove k ((j, e) ∷ m) a h = ground (arith, values-AllAbove k m a.1 h.1, a.0, h.0)

  values-IsAscending :
      (m : BTreeMap EntryKey PoolEntry)
      → IsOrdered m
      → Every (λ j e. j ≡ key_of e) m
      → IsAscending (values_where test m)
  unfolding values_where
  values-IsAscending [] o h = tt
  values-IsAscending ((j, e) ∷ m) o h =
      ground (arith, values-IsAscending m o.1 h.1, values-AllAbove j m o.0 h.1, h.0)

-- `reserve_hashes` hands out exactly the entries whose hash is asked for, in the order of their keys,
-- and leaves exactly the others in the pool.
pub reserve_hashes_lem :
    (hashes : BTreeSet B256) {p : Mempool}
    → IsConsistent p
    → ((reserve_hashes hashes p).1 ≡ values_where (is_hashed hashes) p.entries)
      × ((reserve_hashes hashes p).0.entries ≡ drop_where (is_hashed hashes) p.entries)
unfolding reserve_hashes
reserve_hashes_lem hashes {p} c = (
  ap sort_by_key (
        reserve_keys-values (is_hashed hashes) p.entries p c.entries_ordered
          (found_self p.entries c.entries_ordered))
      ∙ sort-IsAscending (values_where (is_hashed hashes) p.entries)
          (values-IsAscending (is_hashed hashes) p.entries c.entries_ordered c.keyed),
  reserve_keys-entries (keys_where (is_hashed hashes) p.entries) p
      ∙ remove_keys-keys_where (is_hashed hashes) p.entries c.entries_ordered,
)

restore_entry-cases :
    (e : PoolEntry) (p : Mempool)
    → (restore_entry e p ≡ p)
      ⊎ ((get (key_of e) p.entries ≡ none) × (restore_entry e p ≡ add_entry e p))
unfolding restore_entry add_entry contains_key
restore_entry-cases e p = elim (Option-cases (get (key_of e) p.entries)) [
  | inl free ↦ elim (Option-cases (get e.domain_id p.chain_ids)) [
    | inl unknown ↦ inl (ground (arith, free, unknown))
    | inr (c, known) ↦ inr (free, ground (arith, free, known))
  ]
  | inr (old, taken) ↦ inl (ground (arith, taken))
]

restore_entry-IsConsistent :
    (e : PoolEntry) {p : Mempool} → IsConsistent p → IsConsistent (restore_entry e p)
restore_entry-IsConsistent e {p} c = elim (restore_entry-cases e p) [
  | inl same ↦ rw same c
  | inr (free, added) ↦ rw added (add_entry-IsConsistent e c free)
]

restore_entry-keeps :
    (e : PoolEntry) (p : Mempool) (j : EntryKey) (f : PoolEntry)
    → get j p.entries ≡ some f
    → get j (restore_entry e p).entries ≡ some f
restore_entry-keeps e p j f h = elim (restore_entry-cases e p) [
  | inl same ↦ rw same h
  | inr (free, added) ↦ rw added (
      unfold add_entry in
      ground (arith, get-insert j (key_of e) e p.entries, triple_cmp-eq j (key_of e), free, h))
]

pub restore_reserved-IsConsistent :
    (es : List PoolEntry) {p : Mempool} → IsConsistent p → IsConsistent (restore_reserved es p)
unfolding restore_reserved
restore_reserved-IsConsistent [] c = c
restore_reserved-IsConsistent (e ∷ es) c =
    restore_reserved-IsConsistent es (restore_entry-IsConsistent e c)

-- Restoring entries overwrites nothing: an entry that the pool holds under a key before, it holds under
-- that key afterwards.
pub restore_reserved-keeps :
    (es : List PoolEntry) (p : Mempool) (j : EntryKey) (f : PoolEntry)
    → get j p.entries ≡ some f
    → get j (restore_reserved es p).entries ≡ some f
unfolding restore_reserved
restore_reserved-keeps [] p j f h = h
restore_reserved-keeps (e ∷ es) p j f h =
    restore_reserved-keeps es (restore_entry e p) j f (restore_entry-keeps e p j f h)
