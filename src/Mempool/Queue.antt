-- ===== src/Mempool/Queue.antt =====
-- Reading the queues, and taking entries out of the pool and back: the rest of `impl Mempool` in
-- crates/arbor-mempool/src/lib.rs.
use Prim.Native.Nat.Ordering.{lt, eq, gt}
use arbor.Base.{
  ℕ, zero, suc, ◌+◌, ◌-◌, ◌^◌, Bool, true, false, not, ◌||◌, Option, none, some, List, [], ◌∷◌, ltb,
  ◌==◌, if◌then◌else◌, length,
}
use arbor.Base.Ord.{nat_ord, pair_ord, triple_ord, triple_cmp}
use arbor.Base.BTreeMap.{BTreeMap, get, insert as map_insert, remove, contains_key}
use arbor.Base.BTreeMap.Filter.{keys_where, remove_keys}
use arbor.Primitives.{B256, Address, DomainId}
use arbor.Mempool.{Mempool, PoolEntry, EntryKey, SenderKey, BTreeSet, count_of}

-- The key of an entry.
abbrev pub key_of : PoolEntry → EntryKey
key_of entry = (entry.domain_id, entry.sender, entry.transaction.nonce)

-- The loop of `ready` on fuel; `none` is no result of the code but says that the fuel ran out. A
-- nonce is a `u64`, and `checked_add` ends the loop behind the last one.
unfoldable pub ready_loop : ℕ → DomainId → Address → ℕ → Mempool → Option (List PoolEntry)
ready_loop zero domain_id sender nonce pool = none
ready_loop (suc fuel) domain_id sender nonce pool =
    elim (get (domain_id, sender, nonce) pool.entries) [
      | none ↦ some []
      | some entry ↦ elim (ltb (nonce + 1) (2 ^ 64)) [
        | false ↦ some (entry ∷ [])
        | true ↦ elim (ready_loop fuel domain_id sender (nonce + 1) pool) [
          | none ↦ none
          | some rest ↦ some (entry ∷ rest)
        ]
      ]
    ]

-- One round for each `u64` from `state_nonce` on.
unfoldable pub ready : DomainId → Address → ℕ → Mempool → Option (List PoolEntry)
ready domain_id sender state_nonce pool =
    ready_loop (2 ^ 64 - state_nonce) domain_id sender state_nonce pool

unfoldable pub senders_from : DomainId → BTreeMap SenderKey ℕ → List Address
senders_from domain_id [] = []
senders_from domain_id ((key, _) ∷ m) =
    let rest = senders_from domain_id m in if key.0 == domain_id then key.1 ∷ rest else rest

unfoldable pub senders : DomainId → Mempool → List Address
senders domain_id pool = senders_from domain_id pool.sender_counts

-- `count.saturating_sub(removed)`, and a sender without entries is dropped.
unfoldable pub decrement_sender : SenderKey → ℕ → Mempool → Mempool
decrement_sender key removed pool = elim (get key pool.sender_counts) [
  | none ↦ pool
  | some n ↦
      if n - removed == 0
      then record pool { sender_counts = remove key pool.sender_counts }
      else record pool { sender_counts = map_insert key (n - removed) pool.sender_counts }
]

abbrev pub is_hashed : BTreeSet B256 → EntryKey → PoolEntry → Bool
is_hashed hashes key entry = contains_key entry.transaction_hash hashes

unfoldable pub take_entry : EntryKey → Mempool → Mempool
take_entry key pool =
    decrement_sender (key.0, key.1) 1 (record pool { entries = remove key pool.entries })

unfoldable pub reserve_keys : List EntryKey → Mempool → Mempool × List PoolEntry
reserve_keys [] pool = (pool, [])
reserve_keys (key ∷ keys) pool = elim (get key pool.entries) [
  | none ↦ reserve_keys keys pool
  | some entry ↦
      let (pool', rest) = reserve_keys keys (take_entry key pool) in (pool', entry ∷ rest)
]

-- A stable sort by the key of the entries.
unfoldable pub sorted_insert : PoolEntry → List PoolEntry → List PoolEntry
sorted_insert e [] = e ∷ []
sorted_insert e (f ∷ fs) = elim (triple_cmp (key_of e) (key_of f)) [
  | gt ↦ f ∷ sorted_insert e fs
  | lt ↦ e ∷ f ∷ fs
  | eq ↦ e ∷ f ∷ fs
]

unfoldable pub sort_by_key : List PoolEntry → List PoolEntry
sort_by_key [] = []
sort_by_key (e ∷ es) = sorted_insert e (sort_by_key es)

unfoldable pub reserve_hashes : BTreeSet B256 → Mempool → Mempool × List PoolEntry
reserve_hashes hashes pool =
    let (pool', reserved) = reserve_keys (keys_where (is_hashed hashes) pool.entries) pool in
    (pool', sort_by_key reserved)

-- One round of `restore_reserved`.
unfoldable pub restore_entry : PoolEntry → Mempool → Mempool
restore_entry entry pool =
    if contains_key (key_of entry) pool.entries || not (contains_key entry.domain_id pool.chain_ids)
    then pool
    else record pool {
      entries = map_insert (key_of entry) entry pool.entries;
      sender_counts =
          map_insert (entry.domain_id, entry.sender)
            (count_of (entry.domain_id, entry.sender) pool + 1) pool.sender_counts;
    }

unfoldable pub restore_reserved : List PoolEntry → Mempool → Mempool
restore_reserved [] pool = pool
restore_reserved (entry ∷ entries) pool = restore_reserved entries (restore_entry entry pool)

-- `self.entries.range(lo..hi)`, the keys alone.
unfoldable pub in_range : EntryKey → EntryKey → EntryKey → Bool
in_range lo hi key = elim (triple_cmp key lo) [
  | lt ↦ false
  | eq ↦ elim (triple_cmp key hi) [ lt ↦ true | eq ↦ false | gt ↦ false ]
  | gt ↦ elim (triple_cmp key hi) [ lt ↦ true | eq ↦ false | gt ↦ false ]
]

unfoldable pub advance_nonce : DomainId → Address → ℕ → Mempool → Mempool × ℕ
advance_nonce domain_id sender state_nonce pool =
    let keys =
      keys_where (λ key _. in_range (domain_id, sender, 0) (domain_id, sender, state_nonce) key)
        pool.entries in
    (
      decrement_sender (domain_id, sender) (length keys)
          (record pool { entries = remove_keys keys pool.entries }),
      length keys,
    )
