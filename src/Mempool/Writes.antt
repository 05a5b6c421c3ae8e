-- ===== src/Mempool/Writes.antt =====
-- `Mempool::insert`: what it writes, and what it reports.
use arbor.Base.{
  ℕ, zero, suc, ◌+◌, ◌-◌, ◌≤◌, ◌<◌, ◌≡◌, ◌≢◌, ◌⊎◌, ◌↔◌, refl, Bool, true, false, inl, inr, none,
  some, Option-cases, length, arith, if◌then◌else◌, Result, ok, err, Result-cases,
}
use native.Mathlib.Decide.{ℕ_discrete}
use arbor.Base.Ord.{same, nat_ord, pair_ord, triple_ord}
use arbor.Base.BTreeMap.{get, contains_key, get-insert}
use arbor.Primitives.{Address, B256, Bytes, DomainId, Eip1559Transaction}
use arbor.Mempool.{
  Mempool, PoolEntry, EntryKey, TransactionCodec, MempoolError, QueueStatus, pending, queued,
  replaced, validate, place, insert, add_entry, all_present, nonce_is_contiguous,
}
use arbor.Mempool.Price.{replacement_priced}
use arbor.Mempool.Queue.{key_of}

place_unchanged :
    (e : PoolEntry) (n : ℕ) (p : Mempool) (x : MempoolError)
    → (place e n p).1 ≡ err x
    → (place e n p).0 ≡ p
unfolding place
place_unchanged e n p x h = elim (Option-cases (get (key_of e) p.entries)) [
  | inl free ↦ ground (arith, free)
  | inr (old, taken) ↦ ground (arith, taken)
]

-- The entry that `insert` builds.
abbrev pub entry_of : DomainId → Bytes → Eip1559Transaction × Address × B256 → PoolEntry
entry_of d envelope (tx, sender, hash) = record {
  domain_id = d;
  sender = sender;
  transaction_hash = hash;
  envelope = envelope;
  transaction = tx;
}

insert-valid :
    (codec : TransactionCodec) (d : DomainId) (envelope : Bytes) (n : ℕ) (p : Mempool)
    (t : Eip1559Transaction × Address × B256)
    → validate codec d envelope n p ≡ ok t
    → insert codec d envelope n p ≡ place (entry_of d envelope t) n p
unfolding insert
insert-valid codec d envelope n p t e = rw (e, insert)

insert-invalid :
    (codec : TransactionCodec) (d : DomainId) (envelope : Bytes) (n : ℕ) (p : Mempool)
    (x : MempoolError)
    → validate codec d envelope n p ≡ err x
    → insert codec d envelope n p ≡ (p, err x)
unfolding insert
insert-invalid codec d envelope n p x e = rw (e, insert)

-- A refused envelope leaves the pool as it was.
pub insert_unchanged :
    (codec : TransactionCodec) (d : DomainId) (envelope : Bytes) (n : ℕ) (p : Mempool)
    {x : MempoolError}
    → (insert codec d envelope n p).1 ≡ err x
    → (insert codec d envelope n p).0 ≡ p
insert_unchanged codec d envelope n p {x} h = elim (Result-cases (validate codec d envelope n p)) [
  | inl (t, e) ↦
      let same_call = insert-valid codec d envelope n p t e in
      rw same_call (place_unchanged (entry_of d envelope t) n p x (rw same_call at h))
  | inr (y, e) ↦ rw (insert-invalid codec d envelope n p y e)
]

-- What an envelope is that passed every check of `insert` before the quotas.
pub record IsAdmissible (codec : TransactionCodec) (d : DomainId) (envelope : Bytes) (n : ℕ)
    (p : Mempool) (t : Eip1559Transaction × Address × B256) : Type 0 where
  pub routed : get d p.chain_ids ≡ some t.0.chain_id
  pub short : length envelope ≤ p.config.max_transaction_bytes
  pub decoded : codec.decode envelope ≡ ok t.0
  pub fresh : n ≤ t.0.nonce
  pub signed : codec.recover_sender t.0 ≡ ok t.1
  pub hashed : codec.transaction_hash t.0 ≡ ok t.2

validate-IsAdmissible :
    (codec : TransactionCodec) (d : DomainId) (envelope : Bytes) (n : ℕ) (p : Mempool)
    (t : Eip1559Transaction × Address × B256)
    → validate codec d envelope n p ≡ ok t
    → IsAdmissible codec d envelope n p t
unfolding validate
validate-IsAdmissible codec d envelope n p t e = ground arith

place-writes :
    (e : PoolEntry) (n : ℕ) (p : Mempool) (s : QueueStatus)
    → (place e n p).1 ≡ ok s
    → (j : EntryKey)
    → get j (place e n p).0.entries ≡ (if same j (key_of e) then some e else get j p.entries)
unfolding place add_entry
place-writes e n p s h j = elim (Option-cases (get (key_of e) p.entries)) [
  | inl free ↦ ground (arith, free, get-insert j (key_of e) e p.entries)
  | inr (old, taken) ↦ ground (arith, taken, get-insert j (key_of e) e p.entries)
]

-- If `insert` accepts an envelope, then it is admissible, and afterwards the pool holds its entry under
-- its domain, sender and nonce, and under every other key what it held before.
pub insert-writes :
    (codec : TransactionCodec) (d : DomainId) (envelope : Bytes) (n : ℕ) (p : Mempool)
    {s : QueueStatus}
    → (insert codec d envelope n p).1 ≡ ok s
    → (t : Eip1559Transaction × Address × B256) × IsAdmissible codec d envelope n p t
      × ((j : EntryKey)
          → get j (insert codec d envelope n p).0.entries ≡ (
              if same j (d, t.1, t.0.nonce) then some (entry_of d envelope t) else get j p.entries))
insert-writes codec d envelope n p {s} h = elim (Result-cases (validate codec d envelope n p)) [
  | inl (t, e) ↦
      let same_call = insert-valid codec d envelope n p t e in
      (
        t,
        validate-IsAdmissible codec d envelope n p t e,
        λ j. rw same_call (place-writes (entry_of d envelope t) n p s (rw same_call at h) j),
      )
  | inr (y, e) ↦ absurd (not_err (rw (insert-invalid codec d envelope n p y e) at h))
]
  where
    not_err : {y : MempoolError} → ◌≢◌ {A = Result MempoolError QueueStatus} (err y) (ok s)
    not_err = λ e. cc

-- The loop of `nonce_is_contiguous`: `k` nonces from `nonce` on.
all_present_iff :
    (d : DomainId) (a : Address) (nonce k : ℕ) (p : Mempool)
    → (all_present d a nonce k p ≡ true)
      ↔ ((i : ℕ) → nonce ≤ i → i < nonce + k → contains_key (d, a, i) p.entries ≡ true)
unfolding all_present
all_present_iff d a nonce zero p = (λ h i lo hi. absurd (omega arith), λ h. refl)
all_present_iff d a nonce (suc k) p = (
  λ h i lo hi. elim (compare_at i nonce) [
    | inl e ↦ rw e (ground arith)
    | inr ne ↦ (all_present_iff d a (nonce + 1) k p).0 (ground arith) i (omega arith) (omega arith)
  ],
  λ h. ground (
    arith,
    h nonce (omega arith) (omega arith),
    (all_present_iff d a (nonce + 1) k p).1 (λ i lo hi. h i (omega arith) (omega arith)),
  ),
)
  where
    compare_at : (i n : ℕ) → (i ≡ n) ⊎ (i ≢ n)
    compare_at i n = elim (ℕ_discrete i n) [ yes e ↦ inl e | no ne ↦ inr ne ]

-- Every nonce from the state's through the transaction's is in the pool.
abbrev pub IsContiguous : DomainId → Address → ℕ → ℕ → Mempool → Type 0
IsContiguous d a lo hi p = (i : ℕ) → lo ≤ i → i ≤ hi → contains_key (d, a, i) p.entries ≡ true

nonce_is_contiguous_iff :
    (d : DomainId) (a : Address) (lo hi : ℕ) (p : Mempool)
    → lo ≤ hi
    → (nonce_is_contiguous d a lo hi p ≡ true) ↔ IsContiguous d a lo hi p
unfolding nonce_is_contiguous
nonce_is_contiguous_iff d a lo hi p le =
    let loop = all_present_iff d a lo (hi + 1 - lo) p in
    (λ h i l u. loop.0 h i l (omega arith), λ h. loop.1 (λ i l u. h i l (omega arith)))

module _ (e : PoolEntry) (n : ℕ) (p : Mempool) where
  place_pending :
      (place e n p).1 ≡ ok pending
      → (get (key_of e) p.entries ≡ none)
        × (nonce_is_contiguous e.domain_id e.sender n e.transaction.nonce (place e n p).0 ≡ true)
  unfolding place
  place_pending h = elim (Option-cases (get (key_of e) p.entries)) [
    | inl free ↦ ground (arith, free)
    | inr (old, taken) ↦ ground (arith, taken)
  ]

  place_queued :
      (place e n p).1 ≡ ok queued
      → (get (key_of e) p.entries ≡ none)
        × (nonce_is_contiguous e.domain_id e.sender n e.transaction.nonce (place e n p).0 ≡ false)
  unfolding place
  place_queued h = elim (Option-cases (get (key_of e) p.entries)) [
    | inl free ↦ ground (arith, free)
    | inr (old, taken) ↦ ground (arith, taken)
  ]

  place_replaced :
      (place e n p).1 ≡ ok replaced
      → (old : PoolEntry) × (get (key_of e) p.entries ≡ some old)
        × (replacement_priced old.transaction e.transaction p.config.replacement_bump_percent
            ≡ true)
  unfolding place
  place_replaced h = elim (Option-cases (get (key_of e) p.entries)) [
    | inl free ↦ absurd (ground (arith, free))
    | inr (old, taken) ↦ (old, taken, ground (arith, taken))
  ]

-- What an answer says of the pools before and after. `pending`: the nonce was free, and now every nonce
-- from the state's through its own is in the pool. `queued`: the nonce was free, and now one of these is
-- missing. `replaced`: the nonce was taken by a transaction whose two fee caps are raised by the
-- required percentage.
abbrev pub StatusMeans :
    QueueStatus → DomainId → ℕ → Eip1559Transaction × Address × B256 → Mempool → Mempool → Type 0
StatusMeans pending d n t p p' =
    (get (d, t.1, t.0.nonce) p.entries ≡ none) × IsContiguous d t.1 n t.0.nonce p'
StatusMeans queued d n t p p' =
    (get (d, t.1, t.0.nonce) p.entries ≡ none) × ¬ IsContiguous d t.1 n t.0.nonce p'
StatusMeans replaced d n t p p' =
    (old : PoolEntry) × (get (d, t.1, t.0.nonce) p.entries ≡ some old)
    × (replacement_priced old.transaction t.0 p.config.replacement_bump_percent ≡ true)

place_status :
    (d : DomainId) (envelope : Bytes) (n : ℕ) (p : Mempool)
    (t : Eip1559Transaction × Address × B256) (s : QueueStatus)
    → n ≤ t.0.nonce
    → (place (entry_of d envelope t) n p).1 ≡ ok s
    → StatusMeans s d n t p (place (entry_of d envelope t) n p).0
place_status d envelope n p t pending fresh h =
    let (free, all) = place_pending (entry_of d envelope t) n p h in
    (free, (nonce_is_contiguous_iff d t.1 n t.0.nonce _ fresh).0 all)
place_status d envelope n p t queued fresh h =
    let (free, gap) = place_queued (entry_of d envelope t) n p h in
    (free, λ all. true_is_false ((nonce_is_contiguous_iff d t.1 n t.0.nonce _ fresh).1 all) gap)
  where
    true_is_false : {b : Bool} → b ≡ true → b ≡ false → ⊥
    true_is_false h k = cc
place_status d envelope n p t replaced fresh h = place_replaced (entry_of d envelope t) n p h

-- If an envelope passes the checks and `insert` accepts it with a status, then the status means what it
-- says: `pending`, that its nonce was free and now no nonce from the state's through its own is missing;
-- `queued`, that its nonce was free and now one of these is missing; `replaced`, that its nonce was taken
-- by a transaction whose two fee caps it raises by the required percentage.
pub insert_status :
    (codec : TransactionCodec) (d : DomainId) (envelope : Bytes) (n : ℕ) (p : Mempool)
    (t : Eip1559Transaction × Address × B256) (s : QueueStatus)
    → validate codec d envelope n p ≡ ok t
    → (insert codec d envelope n p).1 ≡ ok s
    → StatusMeans s d n t p (insert codec d envelope n p).0
insert_status codec d envelope n p t s e h =
    let same_call = insert-valid codec d envelope n p t e in
    rw same_call (
      place_status d envelope n p t s (validate-IsAdmissible codec d envelope n p t e).fresh
        (rw same_call at h))
