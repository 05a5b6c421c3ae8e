-- ===== src/State/Overlay.antt =====
-- The copy-on-write overlay of crates/arbor-state/src/overlay.rs. What it calls of the rest of the
-- crate is the parameter `StateCalls`: hashing an address, the RLP of an account, and building a trie.
use arbor.Base.{
  ℕ, ◌≡◌, refl, sym, ap, ◌∙◌, Bool, Option, none, some, Option-cases, inl, inr, [], ◌∷◌, Result, ok,
  err, length, arith, if◌then◌else◌,
}
use arbor.Base.Ord.{same, nat_ord, nat_cmp_eq}
use arbor.Base.BTreeMap.{
  BTreeMap, get, insert as map_insert, remove as map_remove, get-insert, get-remove_ne,
}
use arbor.Base.BTreeMap.Order.{
  IsOrdered, get-Above, insert-IsOrdered, remove-IsOrdered, get-remove_self,
}
use arbor.Base.BTreeMap.Extensional.{IsOrdered-ext}
use arbor.Primitives.{B256, Address, Bytes}
use arbor.State.{StateError}

pub record TrieSnapshot : Type 0 where
  pub root : B256
  pub nodes : BTreeMap B256 Bytes
  pub leaves : BTreeMap B256 Bytes

-- `secure_account_key`, `Account::is_empty`, `encode_account`, `decode_account` and
-- `EthereumStateCommitment::build`.
pub record StateCalls (Account : Type 0) : Type 0 where
  pub secure_account_key : Address → B256
  pub is_empty : Account → Bool
  pub encode_account : Account → Bytes
  pub decode_account : Bytes → Result StateError Account
  pub build : BTreeMap B256 Bytes → Result StateError TrieSnapshot

pub record StateOverlay : Type 0 where
  pub base : BTreeMap B256 Bytes
  -- `none` deletes the key
  pub writes : BTreeMap B256 (Option Bytes)

unfoldable pub new : BTreeMap B256 Bytes → StateOverlay
new base = record { base = base; writes = [] }

unfoldable pub from_snapshot : TrieSnapshot → StateOverlay
from_snapshot snapshot = new snapshot.leaves

unfoldable pub set_secure_leaf : B256 → Option Bytes → StateOverlay → StateOverlay
set_secure_leaf key value o = record o { writes = map_insert key value o.writes }

unfoldable pub changed_keys : StateOverlay → ℕ
changed_keys o = length o.writes

-- One round of the loop of `commit`.
unfoldable pub apply_write : B256 → Option Bytes → BTreeMap B256 Bytes → BTreeMap B256 Bytes
apply_write key none base = map_remove key base
apply_write key (some value) base = map_insert key value base

unfoldable pub apply_writes :
    BTreeMap B256 (Option Bytes) → BTreeMap B256 Bytes → BTreeMap B256 Bytes
apply_writes [] base = base
apply_writes ((key, value) ∷ writes) base = apply_writes writes (apply_write key value base)

unfoldable pub discard : StateOverlay → BTreeMap B256 Bytes
discard o = o.base

unfoldable pub secure_leaf : B256 → StateOverlay → Option Bytes
secure_leaf key o = elim (get key o.writes) [
  | some (some value) ↦ some value
  | some none ↦ none
  | none ↦ get key o.base
]

module _ {Account : Type 0} (calls : StateCalls Account) where
  unfoldable pub set_account : Address → Account → StateOverlay → StateOverlay
  set_account address account o =
      if calls.is_empty account
      then record o { writes = map_insert (calls.secure_account_key address) none o.writes }
      else record o {
        writes =
            map_insert (calls.secure_account_key address) (some (calls.encode_account account))
              o.writes;
      }

  unfoldable pub delete_account : Address → StateOverlay → StateOverlay
  delete_account address o = record o {
    writes = map_insert (calls.secure_account_key address) none o.writes;
  }

  unfoldable pub commit : StateOverlay → Result StateError TrieSnapshot
  commit o = calls.build (apply_writes o.writes o.base)

  unfoldable pub account : Address → StateOverlay → Result StateError (Option Account)
  account address o = elim (secure_leaf (calls.secure_account_key address) o) [
    | none ↦ ok none
    | some bytes ↦ elim (calls.decode_account bytes) [ ok a ↦ ok (some a) | err e ↦ err e ]
  ]

-- The maps are ordered.
pub record IsOverlay (o : StateOverlay) : Type 0 where
  pub base : IsOrdered o.base
  pub writes : IsOrdered o.writes

apply_write-IsOrdered :
    (k : B256) (v : Option Bytes) (m : BTreeMap B256 Bytes)
    → IsOrdered m
    → IsOrdered (apply_write k v m)
unfolding apply_write
apply_write-IsOrdered k none m o = remove-IsOrdered k m o
apply_write-IsOrdered k (some b) m o = insert-IsOrdered k b m o

get-apply_write :
    (j k : B256) (v : Option Bytes) (m : BTreeMap B256 Bytes)
    → IsOrdered m
    → get j (apply_write k v m) ≡ (if same j k then v else get j m)
unfolding apply_write
get-apply_write j k none m o =
    ground (arith, get-remove_ne j k m, get-remove_self k m o, nat_cmp_eq j k)
get-apply_write j k (some b) m o = get-insert j k b m

apply_writes-IsOrdered :
    (w : BTreeMap B256 (Option Bytes)) (m : BTreeMap B256 Bytes)
    → IsOrdered m
    → IsOrdered (apply_writes w m)
unfolding apply_writes
apply_writes-IsOrdered [] m o = o
apply_writes-IsOrdered ((k, v) ∷ w) m o =
    apply_writes-IsOrdered w (apply_write k v m) (apply_write-IsOrdered k v m o)

-- The loop of `commit` writes what the overlay shows.
get-apply_writes :
    (j : B256) (w : BTreeMap B256 (Option Bytes)) (m : BTreeMap B256 Bytes)
    → IsOrdered w
    → IsOrdered m
    → get j (apply_writes w m) ≡ secure_leaf j (record { base = m; writes = w })
unfolding get apply_writes secure_leaf
get-apply_writes j [] m ow om = refl
get-apply_writes j ((k, v) ∷ w) m ow om =
    let ih = get-apply_writes j w (apply_write k v m) ow.1 (apply_write-IsOrdered k v m om) in
    ground (arith, ih, get-apply_write j k v m om, get-Above k w ow.0, nat_cmp_eq j k)

secure_leaf-insert :
    (j k : B256) (v : Option Bytes) (o : StateOverlay)
    → secure_leaf j (record o { writes = map_insert k v o.writes })
      ≡ (if same j k then v else secure_leaf j o)
unfolding secure_leaf
secure_leaf-insert j k v o = elim (Option-cases v) [
  | inl e ↦ ground (arith, e, get-insert j k v o.writes)
  | inr (b, e) ↦ ground (arith, e, get-insert j k v o.writes)
]

insert-IsOverlay :
    (k : B256) (v : Option Bytes) {o : StateOverlay}
    → IsOverlay o
    → IsOverlay (record o { writes = map_insert k v o.writes })
insert-IsOverlay k v {o} h = record {
  base = h.base;
  writes = insert-IsOrdered k v o.writes h.writes;
}

module _ {Account : Type 0} (calls : StateCalls Account) where
  -- `commit` builds a trie over an ordered map that holds under each key what the overlay shows there.
  pub commit_lem :
      {o : StateOverlay}
      → IsOverlay o
      → (leaves : BTreeMap B256 Bytes) × (commit calls o ≡ calls.build leaves)
        × IsOrdered leaves
        × ((key : B256) → get key leaves ≡ secure_leaf key o)
  unfolding commit
  commit_lem {o} h = (
    apply_writes o.writes o.base,
    refl,
    apply_writes-IsOrdered o.writes o.base h.base,
    λ key. get-apply_writes key o.writes o.base h.writes h.base,
  )

  -- Two overlays that show the same leaves commit to the same result, whatever their bases and in
  -- whatever order they were written.
  pub commit-eq :
      {o o' : StateOverlay}
      → IsOverlay o
      → IsOverlay o'
      → ((key : B256) → secure_leaf key o ≡ secure_leaf key o')
      → commit calls o ≡ commit calls o'
  commit-eq {o} {o'} h h' same_view =
      let (m, built, ordered, view) = commit_lem h in
      let (m', built', ordered', view') = commit_lem h' in
      let e : m ≡ m' =
        IsOrdered-ext m m' ordered ordered' (λ k. view k ∙ same_view k ∙ sym (view' k)) in
      built ∙ ap calls.build e ∙ sym built'

  -- If decoding undoes encoding, then after `set_account` the overlay shows under the address the
  -- account, or no account if it is empty; under its key the leaf is the encoding, or missing, and under
  -- every other key what it was; and the base is untouched.
  pub set_account_lem :
      ((x : Account) → calls.decode_account (calls.encode_account x) ≡ ok x)
      → (address : Address) (x : Account) {o : StateOverlay} → IsOverlay o
      → IsOverlay (set_account calls address x o)
        × (account calls address (set_account calls address x o)
            ≡ ok (if calls.is_empty x then none else some x))
        × ((key : B256)
            → secure_leaf key (set_account calls address x o) ≡ (
                if same key (calls.secure_account_key address)
                then (if calls.is_empty x then none else some (calls.encode_account x))
                else secure_leaf key o))
        × (discard (set_account calls address x o) ≡ discard o)
  unfolding set_account account discard
  set_account_lem round_trip address x {o} h =
      let k = calls.secure_account_key address in
      let some_leaf = some (calls.encode_account x) in
      let empty = secure_leaf-insert k k none o in
      let written = secure_leaf-insert k k some_leaf o in
      (
        ground (arith, insert-IsOverlay k none h, insert-IsOverlay k some_leaf h),
        ground (arith, empty, written, round_trip x, nat_cmp_eq k k),
        λ key.
            ground (arith, secure_leaf-insert key k none o, secure_leaf-insert key k some_leaf o),
        ground arith,
      )
