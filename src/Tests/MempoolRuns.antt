-- ===== src/Tests/MempoolRuns.antt =====
-- The transaction pool at concrete pools: each theorem is applied, and the operations run.
use arbor.Base.{
  ℕ, ◌+◌, ◌*◌, ◌/◌, ◌<◌, min, ◌≡◌, ◌↔◌, refl, ap, subst, true, false, none, some, List, [], ◌∷◌,
  String, Result, ok, err, length, if◌then◌else◌, arith,
}
use arbor.Base.Ord.{same, nat_ord, pair_ord, triple_ord}
use arbor.Base.BTreeMap.{get, insert as map_insert, remove, contains_key}
use arbor.Base.BTreeMap.Count.{count}
use arbor.Base.BTreeMap.Filter.{keys_where, values_where, drop_where}
use arbor.Primitives.{Eip1559Transaction, Bytes}
use arbor.Mempool.{
  MempoolConfig, MempoolError, Mempool, PoolEntry, EntryKey, TransactionCodec, QueueStatus, pending,
  replaced, wrong_chain_id, new, register_domain, validate, all_present, nonce_is_contiguous,
  count_of, add_entry, place, insert,
}
use arbor.Mempool.Price.{replacement_min, replacement_min-eq, replacement_priced, u128_max}
use arbor.Mempool.Queue.{
  ready, in_range, is_hashed, reserve_keys, take_entry, sort_by_key, sorted_insert, ready_loop,
  reserve_hashes, restore_entry, restore_reserved, advance_nonce, decrement_sender,
}
use arbor.Mempool.Invariant.{IsConsistent, IsWithinQuotas, held}
use arbor.Mempool.Admission.{insert-IsConsistent, insert-IsWithinQuotas}
use arbor.Mempool.Writes.{
  IsAdmissible, entry_of, insert_unchanged, insert-writes, insert_status, StatusMeans,
}
use arbor.Mempool.Removal.{advance_nonce_lem}
use arbor.Mempool.Reserve.{reserve_hashes_lem, restore_reserved-keeps}
use arbor.Mempool.Ready.{IsRun, IsLast, ready_total}
use arbor.Mempool.Registry.{IsRouted}
use arbor.Mempool.Reachable.{created, registered, inserted, Reachable-IsConsistent}

-- An envelope is a chain ID, a nonce and a fee cap; everything is signed by account 42.
abbrev transaction : ℕ → ℕ → ℕ → Eip1559Transaction
transaction chain nonce fee = record {
  chain_id = chain;
  nonce = nonce;
  max_priority_fee_per_gas = fee;
  max_fee_per_gas = fee;
  gas_limit = 21000;
  to = none;
  value = 0;
  input = [];
  access_list = [];
  y_parity = false;
  r = 1;
  s = 1;
}

abbrev decode_three : Bytes → Result String Eip1559Transaction
decode_three (chain ∷ nonce ∷ fee ∷ []) = ok (transaction chain nonce fee)
decode_three _ = err "RLP"

abbrev codec : TransactionCodec
codec = record {
  decode = decode_three;
  recover_sender = λ t. ok 42;
  transaction_hash = λ t. ok (100 * t.nonce + t.max_fee_per_gas);
}

abbrev config : MempoolConfig
config = record {
  max_transactions = 2;
  max_transactions_per_sender = 2;
  max_transaction_bytes = 100;
  replacement_bump_percent = 10;
}

abbrev entry : ℕ → ℕ → PoolEntry
entry nonce fee = record {
  domain_id = 1;
  sender = 42;
  transaction_hash = 100 * nonce + fee;
  envelope = 7 ∷ nonce ∷ fee ∷ [];
  transaction = transaction 7 nonce fee;
}

abbrev empty_pool : Mempool
empty_pool = record {
  config = config;
  chain_ids = (1, 7) ∷ [];
  used_chain_ids = (7, tt) ∷ [];
  entries = [];
  sender_counts = [];
}

abbrev one_entry : Mempool
one_entry = record empty_pool {
  entries = ((1, 42, 0), entry 0 20) ∷ [];
  sender_counts = ((1, 42), 1) ∷ [];
}

abbrev two_entries : Mempool
two_entries = record empty_pool {
  entries = ((1, 42, 0), entry 0 20) ∷ ((1, 42, 1), entry 1 20) ∷ [];
  sender_counts = ((1, 42), 2) ∷ [];
}

empty_pool-registered : register_domain 1 7 (new config) ≡ (empty_pool, ok tt)
unfolding register_domain new contains_key get map_insert
empty_pool-registered = refl

one_entry-inserted : insert codec 1 (7 ∷ 0 ∷ 20 ∷ []) 0 empty_pool ≡ (one_entry, ok pending)
unfolding insert validate place add_entry nonce_is_contiguous all_present count_of contains_key get
    map_insert
one_entry-inserted = refl

two_entries-inserted : insert codec 1 (7 ∷ 1 ∷ 20 ∷ []) 0 one_entry ≡ (two_entries, ok pending)
unfolding insert validate place add_entry nonce_is_contiguous all_present count_of contains_key get
    map_insert
two_entries-inserted = refl

one_entry-refused : (insert codec 1 (8 ∷ 0 ∷ 20 ∷ []) 0 one_entry).1 ≡ err (wrong_chain_id 7 8)
unfolding insert validate place get
one_entry-refused = refl

one_entry-replaced : (insert codec 1 (7 ∷ 0 ∷ 22 ∷ []) 0 one_entry).1 ≡ ok replaced
unfolding insert validate place replacement_priced replacement_min get
one_entry-replaced = refl

empty_pool-valid : validate codec 1 (7 ∷ 0 ∷ 20 ∷ []) 0 empty_pool ≡ ok (transaction 7 0 20, 42, 20)
unfolding validate get
empty_pool-valid = refl

-- Entries that were reserved come back although the pool was filled up meanwhile: it then holds three
-- entries, one more than `max_transactions`.
restored_over_quota :
    let (lent, reserved) = reserve_hashes ((20, tt) ∷ []) two_entries in
    let (filled, answer) = insert codec 1 (7 ∷ 2 ∷ 20 ∷ []) 1 lent in
    (answer ≡ ok pending) × (length (restore_reserved reserved filled).entries ≡ 3)
unfolding reserve_hashes reserve_keys take_entry decrement_sender sort_by_key sorted_insert
    restore_reserved restore_entry keys_where insert validate place add_entry nonce_is_contiguous
    all_present count_of contains_key get map_insert remove
restored_over_quota = (refl, refl)

ready_both : ready 1 42 0 two_entries ≡ some (entry 0 20 ∷ entry 1 20 ∷ [])
unfolding ready ready_loop get
ready_both = refl

replacement_min-eq_example : replacement_min 1999 10 ≡ min (1999 + (1999 * 10 + 99) / 100) u128_max
replacement_min-eq_example = replacement_min-eq 1999 10 (omega arith) (omega arith)

empty_pool-IsConsistent : IsConsistent empty_pool
unfolding get count
empty_pool-IsConsistent = record {
  entries_ordered = tt;
  counts_ordered = tt;
  keyed = tt;
  counted = λ key. refl;
}

empty_within : IsWithinQuotas empty_pool
unfolding count
empty_within = record { total = omega arith; each = λ key. omega arith }

-- The proofs carry over from the empty pool.
one_entry-IsConsistent : IsConsistent one_entry
one_entry-IsConsistent =
    subst (λ (r : Mempool × Result MempoolError QueueStatus). IsConsistent r.0) one_entry-inserted
      (insert-IsConsistent codec 1 (7 ∷ 0 ∷ 20 ∷ []) 0 empty_pool-IsConsistent)

two_entries-IsConsistent : IsConsistent two_entries
two_entries-IsConsistent =
    subst (λ (r : Mempool × Result MempoolError QueueStatus). IsConsistent r.0) two_entries-inserted
      (insert-IsConsistent codec 1 (7 ∷ 1 ∷ 20 ∷ []) 0 one_entry-IsConsistent)

insert-IsWithinQuotas_example : IsWithinQuotas (insert codec 1 (7 ∷ 0 ∷ 20 ∷ []) 0 empty_pool).0
insert-IsWithinQuotas_example =
    insert-IsWithinQuotas codec 1 (7 ∷ 0 ∷ 20 ∷ []) 0 empty_pool-IsConsistent empty_within

insert_unchanged_example : (insert codec 1 (8 ∷ 0 ∷ 20 ∷ []) 0 one_entry).0 ≡ one_entry
insert_unchanged_example = insert_unchanged codec 1 (8 ∷ 0 ∷ 20 ∷ []) 0 one_entry one_entry-refused

insert-writes_example :
    (t : Eip1559Transaction × ℕ × ℕ) × IsAdmissible codec 1 (7 ∷ 1 ∷ 20 ∷ []) 0 one_entry t
    × ((j : EntryKey)
        → get j (insert codec 1 (7 ∷ 1 ∷ 20 ∷ []) 0 one_entry).0.entries ≡ (
            if same j (1, t.1, t.0.nonce)
            then some (entry_of 1 (7 ∷ 1 ∷ 20 ∷ []) t)
            else get j one_entry.entries))
insert-writes_example =
    insert-writes codec 1 (7 ∷ 1 ∷ 20 ∷ []) 0 one_entry (ap (λ r. r.1) two_entries-inserted)

advance_nonce_example :
    ((j : EntryKey)
      → get j (advance_nonce 1 42 1 two_entries).0.entries
        ≡ (if in_range (1, 42, 0) (1, 42, 1) j then none else get j two_entries.entries))
    × ((j : EntryKey)
        → (in_range (1, 42, 0) (1, 42, 1) j ≡ true) ↔ ((j.0 ≡ 1) × (j.1 ≡ 42) × (j.2 < 1)))
    × (held (1, 42) (advance_nonce 1 42 1 two_entries).0.entries
          + (advance_nonce 1 42 1 two_entries).1
        ≡ held (1, 42) two_entries.entries)
advance_nonce_example = advance_nonce_lem 1 42 1 two_entries-IsConsistent

reserve_hashes_example :
    ((reserve_hashes ((120, tt) ∷ []) two_entries).1
      ≡ values_where (is_hashed ((120, tt) ∷ [])) two_entries.entries)
    × ((reserve_hashes ((120, tt) ∷ []) two_entries).0.entries
        ≡ drop_where (is_hashed ((120, tt) ∷ [])) two_entries.entries)
reserve_hashes_example = reserve_hashes_lem ((120, tt) ∷ []) two_entries-IsConsistent

ready_total_example :
    (es : List PoolEntry) × (ready 1 42 0 two_entries ≡ some es)
    × IsRun 1 42 two_entries 0 es
    × IsLast 1 42 two_entries (0 + length es)
ready_total_example = ready_total 1 42 two_entries 0 (omega arith)

Reachable-IsConsistent_example :
    let pool = (insert codec 1 (7 ∷ 0 ∷ 20 ∷ []) 0 (register_domain 1 7 (new config)).0).0 in
    IsConsistent pool × IsRouted pool
Reachable-IsConsistent_example =
    Reachable-IsConsistent codec config (inserted 1 (7 ∷ 0 ∷ 20 ∷ []) 0 (registered 1 7 created))

insert_status_example :
    StatusMeans pending 1 0
      (transaction 7 0 20, 42, 20)
      empty_pool
      (insert codec 1 (7 ∷ 0 ∷ 20 ∷ []) 0 empty_pool).0
insert_status_example =
    insert_status codec 1 (7 ∷ 0 ∷ 20 ∷ []) 0 empty_pool (transaction 7 0 20, 42, 20) pending
      empty_pool-valid (ap (λ r. r.1) one_entry-inserted)

one_entry-holds : get (1, 42, 0) one_entry.entries ≡ some (entry 0 20)
unfolding get
one_entry-holds = refl

restore_reserved-keeps_example :
    get (1, 42, 0) (restore_reserved (entry 0 30 ∷ entry 1 20 ∷ []) one_entry).entries
    ≡ some (entry 0 20)
restore_reserved-keeps_example =
    restore_reserved-keeps (entry 0 30 ∷ entry 1 20 ∷ []) one_entry (1, 42, 0) (entry 0 20)
      one_entry-holds

empty_pool-routes : get 1 empty_pool.chain_ids ≡ some 7
unfolding get
empty_pool-routes = refl
