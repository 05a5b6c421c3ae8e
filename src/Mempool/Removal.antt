-- ===== src/Mempool/Removal.antt =====
-- `advance_nonce`, `reserve_hashes` and `restore_reserved`: entries leave the pool and come back.
use arbor.Base.{
  ℕ, ◌+◌, ◌<◌, ◌≡◌, ◌≢◌, ◌↔◌, refl, sym, ap, ◌∙◌, Bool, true, false, inl, inr, none, some,
  Option-cases, List, [], ◌∷◌, length, arith, if◌then◌else◌,
}
use arbor.Base.Ord.{nat_ord, pair_ord, triple_ord, pair_cmp-eq}
use arbor.Base.BTreeMap.{BTreeMap, get, remove, remove-absent}
use arbor.Base.BTreeMap.Order.{remove-IsOrdered}
use arbor.Base.BTreeMap.Count.{count-remove}
use arbor.Base.BTreeMap.Keys.{remove-Every}
use arbor.Base.BTreeMap.Filter.{
  keys_where, drop_where, remove_keys, drop_where-Every, count-drop_where, count-drop_where_other,
  drop_where-IsOrdered, remove_keys-keys_where, get-drop_where, get-drop_where-none,
}
use arbor.Primitives.{Address, B256, DomainId}
use arbor.Mempool.{Mempool, PoolEntry, EntryKey, SenderKey, BTreeSet}
use arbor.Mempool.Queue.{key_of, in_range, advance_nonce, take_entry, reserve_keys, reserve_hashes}
use arbor.Mempool.Invariant.{IsConsistent, held, of_sender, decrement-same, drop-IsConsistent}

-- The entries that `advance_nonce` removes: those of the sender with a lower nonce.
abbrev pub is_stale : DomainId → Address → ℕ → EntryKey → PoolEntry → Bool
is_stale d a n key _ = in_range (d, a, 0) (d, a, n) key

in_range_iff :
    (d : DomainId) (a : Address) (n : ℕ) (key : EntryKey)
    → (in_range (d, a, 0) (d, a, n) key ≡ true) ↔ ((key.0 ≡ d) × (key.1 ≡ a) × (key.2 < n))
unfolding in_range
in_range_iff d a n key = (λ h. ground arith, λ h. ground arith)

stale-of_sender :
    (d : DomainId) (a : Address) (n : ℕ) (k : EntryKey) (e : PoolEntry)
    → is_stale d a n k e ≡ true
    → of_sender (d, a) k e ≡ true
stale-of_sender d a n k e h = ground (arith, (in_range_iff d a n k).0 h)

stale-of_other :
    (d : DomainId) (a : Address) (n : ℕ) (j : SenderKey)
    → j ≢ (d, a)
    → (k : EntryKey) (e : PoolEntry) → is_stale d a n k e ≡ true
    → of_sender j k e ≡ false
stale-of_other d a n j ne k e h =
    ground (arith, (in_range_iff d a n k).0 h, pair_cmp-eq (k.0, k.1) j, ne)

module _ (d : DomainId) (a : Address) (n : ℕ) {p : Mempool} (c : IsConsistent p) where
  abbrev kept : BTreeMap EntryKey PoolEntry
  kept = drop_where (is_stale d a n) p.entries

  advance-entries : (advance_nonce d a n p).0.entries ≡ kept
  unfolding advance_nonce
  advance-entries =
      (decrement-same (d, a) _ _).0
      ∙ remove_keys-keys_where (is_stale d a n) p.entries c.entries_ordered

  -- `advance_nonce` keeps the pool consistent.
  pub advance_nonce-IsConsistent : IsConsistent (advance_nonce d a n p).0
  unfolding advance_nonce
  advance_nonce-IsConsistent =
      rw (remove_keys-keys_where (is_stale d a n) p.entries c.entries_ordered) (
        drop-IsConsistent (d, a) _ (drop_where (is_stale d a n) p.entries) c
          (drop_where-IsOrdered (is_stale d a n) p.entries c.entries_ordered)
          (drop_where-Every (is_stale d a n) (λ k e. k ≡ key_of e) p.entries c.keyed)
          (count-drop_where (is_stale d a n) (of_sender (d, a)) p.entries (stale-of_sender d a n))
          (λ j ne.
            count-drop_where_other (is_stale d a n) (of_sender j) p.entries
              (stale-of_other d a n j ne)))

  advance-answer : (advance_nonce d a n p).1 ≡ length (keys_where (is_stale d a n) p.entries)
  unfolding advance_nonce
  advance-answer = refl

  get-kept :
      (j : EntryKey)
      → get j kept ≡ (if in_range (d, a, 0) (d, a, n) j then none else get j p.entries)
  get-kept j = elim (Option-cases (get j p.entries)) [
    | inl e ↦ ground (arith, e, get-drop_where-none (is_stale d a n) j p.entries e)
    | inr (v, e) ↦
        ground (arith, e, get-drop_where (is_stale d a n) j v p.entries c.entries_ordered e)
  ]

  -- Afterwards the pool holds exactly the entries that it held, less those of the sender with a nonce
  -- below the state's; and the answer is the number of entries that are gone.
  pub advance_nonce_lem :
      ((j : EntryKey)
        → get j (advance_nonce d a n p).0.entries
          ≡ (if in_range (d, a, 0) (d, a, n) j then none else get j p.entries))
      × ((j : EntryKey)
          → (in_range (d, a, 0) (d, a, n) j ≡ true) ↔ ((j.0 ≡ d) × (j.1 ≡ a) × (j.2 < n)))
      × (held (d, a) (advance_nonce d a n p).0.entries + (advance_nonce d a n p).1
          ≡ held (d, a) p.entries)
  advance_nonce_lem = (
    λ j. ap (get j) advance-entries ∙ get-kept j,
    in_range_iff d a n,
    rw (advance-entries, advance-answer)
        (count-drop_where (is_stale d a n) (of_sender (d, a)) p.entries (stale-of_sender d a n)),
  )

-- `take_entry` removes one entry and lowers the counter of its sender.
take_entry-IsConsistent :
    (k : EntryKey) (e : PoolEntry) {p : Mempool}
    → IsConsistent p
    → get k p.entries ≡ some e
    → IsConsistent (take_entry k p)
unfolding take_entry
take_entry-IsConsistent k e {p} c present =
    drop-IsConsistent (k.0, k.1) 1 (remove k p.entries) c
      (remove-IsOrdered k p.entries c.entries_ordered)
      (remove-Every (λ k e. k ≡ key_of e) k p.entries c.keyed)
      (ground (
        arith,
        count-remove (of_sender (k.0, k.1)) k e p.entries present,
        pair_cmp-eq (k.0, k.1) (k.0, k.1),
      ))
      (λ j ne.
        ground
          (arith, count-remove (of_sender j) k e p.entries present, pair_cmp-eq (k.0, k.1) j, ne))

pub take-entries : (k : EntryKey) (p : Mempool) → (take_entry k p).entries ≡ remove k p.entries
unfolding take_entry
take-entries k p = (decrement-same (k.0, k.1) 1 (record p { entries = remove k p.entries })).0

reserve_keys-IsConsistent :
    (ks : List EntryKey) {p : Mempool} → IsConsistent p → IsConsistent (reserve_keys ks p).0
unfolding reserve_keys
reserve_keys-IsConsistent [] c = c
reserve_keys-IsConsistent (k ∷ ks) {p} c = elim (Option-cases (get k p.entries)) [
  | inl absent ↦ rw (absent, reserve_keys) (reserve_keys-IsConsistent ks c)
  | inr (e, present) ↦
      rw (present, reserve_keys)
        (reserve_keys-IsConsistent ks (take_entry-IsConsistent k e c present))
]

-- `reserve_hashes` keeps the pool consistent.
pub reserve_hashes-IsConsistent :
    (hashes : BTreeSet B256) {p : Mempool}
    → IsConsistent p
    → IsConsistent (reserve_hashes hashes p).0
unfolding reserve_hashes
reserve_hashes-IsConsistent hashes c = reserve_keys-IsConsistent _ c

pub reserve_keys-entries :
    (ks : List EntryKey) (p : Mempool) → (reserve_keys ks p).0.entries ≡ remove_keys ks p.entries
unfolding reserve_keys remove_keys
reserve_keys-entries [] p = refl
reserve_keys-entries (k ∷ ks) p = elim (Option-cases (get k p.entries)) [
  | inl absent ↦
      rw (absent, reserve_keys)
        (reserve_keys-entries ks p ∙ ap (remove_keys ks) (sym (remove-absent k p.entries absent)))
  | inr (e, present) ↦
      rw (present, reserve_keys)
        (reserve_keys-entries ks (take_entry k p) ∙ ap (remove_keys ks) (take-entries k p))
]
