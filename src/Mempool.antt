-- ===== src/Mempool.antt =====
-- The transaction pool of crates/arbor-mempool/src/lib.rs: per-domain nonce queues with quotas.
-- `&mut self` is a pool that a function takes and returns. Decoding, signature recovery and hashing
-- of an envelope rest on the RLP and secp256k1 libraries: they are the parameter `TransactionCodec`.
pub mod Price
pub mod Queue
pub mod Invariant
pub mod Admission
pub mod Writes
pub mod Removal
pub mod Reserve
pub mod Ready
pub mod Registry
pub mod Reachable
use arbor.Base.{
  ℕ, zero, suc, ◌+◌, ◌-◌, ◌*◌, ◌/◌, ◌%◌, ◌^◌, min, Bool, true, false, not, ◌&&◌, Option, none, some,
  List, [], ◌∷◌, ◌++◌, String, Result, ok, err, ltb, leb, ◌==◌, if◌then◌else◌, length,
}
use arbor.Base.Outcome.{◌>>=◌, ◌>>◌, fail_if, ok_or, map_err}
use arbor.Base.Ord.{Ord, same, nat_ord, pair_ord, triple_ord, triple_cmp}
use arbor.Base.BTreeMap.{BTreeMap, get, insert as map_insert, remove, contains_key}
use arbor.Codec.Limits.{max_transaction_envelope_bytes}
use arbor.Primitives.{B256, Address, Bytes, DomainId, Eip1559Transaction}
use Price.{replacement_priced}
use Prim.Native.Nat.{Ordering}
use Prim.Native.Nat.Ordering.{lt, eq, gt}

pub record MempoolConfig : Type 0 where
  pub max_transactions : ℕ
  pub max_transactions_per_sender : ℕ
  pub max_transaction_bytes : ℕ
  pub replacement_bump_percent : ℕ

pub data QueueStatus : Type 0 where
  pending queued replaced : QueueStatus

pub record PoolEntry : Type 0 where
  pub domain_id : DomainId
  pub sender : Address
  pub transaction_hash : B256
  pub envelope : Bytes
  pub transaction : Eip1559Transaction

pub data MempoolError : Type 0 where
  unknown_domain invalid_chain_id domain_already_registered duplicate_chain_id : MempoolError
  -- the limit and the observed bytes
  envelope_too_large : ℕ → ℕ → MempoolError
  invalid_transaction : String → MempoolError
  -- the registered and the encoded chain ID
  wrong_chain_id : ℕ → ℕ → MempoolError
  -- the state's and the transaction's nonce
  nonce_too_low : ℕ → ℕ → MempoolError
  replacement_underpriced capacity sender_capacity : MempoolError

-- A set is a map to the unit type.
abbrev pub BTreeSet : Type 0 → Type 0
BTreeSet K = BTreeMap K (Unit {0})

-- `(DomainId, Address)` and `(DomainId, Address, u64)`
abbrev pub SenderKey : Type 0
SenderKey = ℕ × ℕ

abbrev pub EntryKey : Type 0
EntryKey = ℕ × ℕ × ℕ

pub record Mempool : Type 0 where
  pub config : MempoolConfig
  pub chain_ids : BTreeMap ℕ ℕ
  pub used_chain_ids : BTreeSet ℕ
  pub entries : BTreeMap EntryKey PoolEntry
  pub sender_counts : BTreeMap SenderKey ℕ

-- `decode_eip1559`, `recover_eip1559_sender` and `eip1559_transaction_hash`, with the text of their
-- errors.
pub record TransactionCodec : Type 0 where
  pub decode : Bytes → Result String Eip1559Transaction
  pub recover_sender : Eip1559Transaction → Result String Address
  pub transaction_hash : Eip1559Transaction → Result String B256

unfoldable pub new : MempoolConfig → Mempool
new config = record {
  config = record config {
    max_transaction_bytes = min config.max_transaction_bytes max_transaction_envelope_bytes;
  };
  chain_ids = [];
  used_chain_ids = [];
  entries = [];
  sender_counts = [];
}

unfoldable pub register_domain : DomainId → ℕ → Mempool → Mempool × Result MempoolError (Unit {0})
register_domain domain_id chain_id pool =
    if chain_id == 0 then (pool, err invalid_chain_id) else elim (get domain_id pool.chain_ids) [
      | some registered_chain_id ↦
          if registered_chain_id == chain_id
          then (pool, ok tt)
          else (pool, err domain_already_registered)
      | none ↦
          if contains_key chain_id pool.used_chain_ids then (pool, err duplicate_chain_id) else (
            record pool {
              chain_ids = map_insert domain_id chain_id pool.chain_ids;
              used_chain_ids = map_insert chain_id tt pool.used_chain_ids;
            },
            ok tt,
          )
    ]

-- The first half of `insert`, up to the key: what is checked of the envelope alone.
unfoldable pub validate :
    TransactionCodec
    → DomainId
    → Bytes
    → ℕ
    → Mempool
    → Result MempoolError (Eip1559Transaction × Address × B256)
validate codec domain_id envelope state_nonce pool = do
  chain_id ← ok_or (get domain_id pool.chain_ids) unknown_domain
  fail_if (ltb pool.config.max_transaction_bytes (length envelope))
      (envelope_too_large pool.config.max_transaction_bytes (length envelope))
  transaction ← map_err invalid_transaction (codec.decode envelope)
  fail_if (not (transaction.chain_id == chain_id)) (wrong_chain_id chain_id transaction.chain_id)
  fail_if (ltb transaction.nonce state_nonce) (nonce_too_low state_nonce transaction.nonce)
  sender ← map_err invalid_transaction (codec.recover_sender transaction)
  transaction_hash ← map_err invalid_transaction (codec.transaction_hash transaction)
  ok (transaction, sender, transaction_hash)

-- `(nonce..nonce + n).all(|nonce| self.entries.contains_key(..))`
unfoldable pub all_present : DomainId → Address → ℕ → ℕ → Mempool → Bool
all_present domain_id sender nonce zero pool = true
all_present domain_id sender nonce (suc n) pool =
    contains_key (domain_id, sender, nonce) pool.entries
    && all_present domain_id sender (nonce + 1) n pool

unfoldable pub nonce_is_contiguous : DomainId → Address → ℕ → ℕ → Mempool → Bool
nonce_is_contiguous domain_id sender state_nonce target pool =
    all_present domain_id sender state_nonce (target + 1 - state_nonce) pool

unfoldable pub count_of : SenderKey → Mempool → ℕ
count_of key pool = elim (get key pool.sender_counts) [ none ↦ 0 | some n ↦ n ]

-- The two writes of a new entry.
unfoldable pub add_entry : PoolEntry → Mempool → Mempool
add_entry entry pool = record pool {
  entries = map_insert (entry.domain_id, entry.sender, entry.transaction.nonce) entry pool.entries;
  sender_counts =
      map_insert (entry.domain_id, entry.sender) (count_of (entry.domain_id, entry.sender) pool + 1)
        pool.sender_counts;
}

-- The second half of `insert`: a replacement, a refusal by a quota, or a new entry.
unfoldable pub place : PoolEntry → ℕ → Mempool → Mempool × Result MempoolError QueueStatus
place entry state_nonce pool =
    elim (get (entry.domain_id, entry.sender, entry.transaction.nonce) pool.entries) [
      | some existing ↦
          if replacement_priced existing.transaction entry.transaction
            pool.config.replacement_bump_percent
          then (
            record pool {
              entries =
                  map_insert (entry.domain_id, entry.sender, entry.transaction.nonce) entry
                    pool.entries;
            },
            ok replaced,
          )
          else (pool, err replacement_underpriced)
      | none ↦
          if leb pool.config.max_transactions (length pool.entries)
          then (pool, err capacity)
          else if leb pool.config.max_transactions_per_sender
              (count_of (entry.domain_id, entry.sender) pool)
          then (pool, err sender_capacity)
          else (
            add_entry entry pool,
            ok (
                if nonce_is_contiguous entry.domain_id entry.sender state_nonce
                  entry.transaction.nonce (add_entry entry pool)
                then pending
                else queued),
          )
    ]

unfoldable pub insert :
    TransactionCodec → DomainId → Bytes → ℕ → Mempool → Mempool × Result MempoolError QueueStatus
insert codec domain_id envelope state_nonce pool =
    elim (validate codec domain_id envelope state_nonce pool) [
      | err e ↦ (pool, err e)
      | ok (transaction, sender, transaction_hash) ↦
          place
            (record {
              domain_id = domain_id;
              sender = sender;
              transaction_hash = transaction_hash;
              envelope = envelope;
              transaction = transaction;
            })
            state_nonce pool
    ]
