-- ===== src/Chain/Checkpoint/Restore.antt =====
-- A checkpoint that is accepted is the one that the restored view materializes:
-- `FinalizedChainState::from_checkpoint` and `checkpoint` of crates/arbor-chain/src/lib.rs.
use arbor.Base.{
  ℕ, ◌≡◌, refl, sym, ap, ◌∙◌, true, Option, none, some, List, [], ◌∷◌, map, All, ok, arith, ◌==◌,
  Result-cases, Option-cases, equal_or_not, inl, inr, if◌then◌else◌,
}
use arbor.Base.Ord.{nat_ord}
use arbor.Base.BTreeMap.{BTreeMap, get, insert as map_insert, get-insert}
use arbor.Base.BTreeMap.Order.{IsOrdered, Above, insert-IsOrdered}
use arbor.Base.BTreeMap.Extensional.{IsOrdered-ext}
use arbor.Primitives.{DomainId, NetworkId, DomainDescriptor}
use arbor.Codec.Limits.{strictly_sorted}
use arbor.Crypto.Power.{AllAbove, sorted-AllAbove}
use arbor.Executor.{ExecutionCalls}
use arbor.Chain.{
  FinalizedDomain, FinalizedChainState, FinalizedDomainCheckpoint, FinalizedChainCheckpoint,
}
use arbor.Chain.Domains.{domain_heads_root}
use arbor.Chain.Checkpoint.{
  domain_of, entry_of, materialize, insert_descriptor, reconstruct_checkpoint_domains,
  from_checkpoint, state_of,
}

module _ {S : Type 0} where
  abbrev entry_ids : List (FinalizedDomainCheckpoint S) → List DomainId
  entry_ids es = map (λ e. e.domain_id) es

  -- The domains of the entries, and the entry under an ID.
  domains_of : List (FinalizedDomainCheckpoint S) → BTreeMap DomainId (FinalizedDomain S)
  domains_of [] = []
  domains_of (e ∷ es) = (e.domain_id, domain_of e) ∷ domains_of es

  find : DomainId → List (FinalizedDomainCheckpoint S) → Option (FinalizedDomainCheckpoint S)
  find id [] = none
  find id (e ∷ es) = if e.domain_id == id then some e else find id es

  -- What an entry tells of its domain and of its descriptor, and what holds where there is none.
  abbrev domain_or :
      Option (FinalizedDomain S) → Option (FinalizedDomainCheckpoint S) → Option (FinalizedDomain S)
  domain_or other none = other
  domain_or other (some e) = some (domain_of e)

  abbrev descriptor_or :
      Option DomainDescriptor → Option (FinalizedDomainCheckpoint S) → Option DomainDescriptor
  descriptor_or other none = other
  descriptor_or other (some e) = e.descriptor

  domains_of-Above :
      (id : DomainId) (es : List (FinalizedDomainCheckpoint S))
      → AllAbove id (entry_ids es)
      → Above id (domains_of es)
  unfolding domains_of
  domains_of-Above id [] h = tt
  domains_of-Above id (e ∷ es) h = (ground (arith, h.0), domains_of-Above id es h.1)

  domains_of-IsOrdered :
      (es : List (FinalizedDomainCheckpoint S))
      → strictly_sorted (entry_ids es) ≡ true
      → IsOrdered (domains_of es)
  unfolding domains_of
  domains_of-IsOrdered [] h = tt
  domains_of-IsOrdered (e ∷ es) h =
      let (above, rest) = sorted-AllAbove e.domain_id (entry_ids es) h in
      (domains_of-Above e.domain_id es above, domains_of-IsOrdered es rest)

  find-Above :
      (id : DomainId) (es : List (FinalizedDomainCheckpoint S))
      → AllAbove id (entry_ids es)
      → find id es ≡ none
  unfolding find
  find-Above id [] h = refl
  find-Above id (e ∷ es) h = ground (arith, h.0, find-Above id es h.1)

  get-domains_of :
      (id : DomainId) (es : List (FinalizedDomainCheckpoint S))
      → get id (domains_of es) ≡ domain_or none (find id es)
  unfolding domains_of find get
  get-domains_of id [] = refl
  get-domains_of id (e ∷ es) = ground (arith, get-domains_of id es)

  find-tail :
      (e : FinalizedDomainCheckpoint S) (es sub : List (FinalizedDomainCheckpoint S))
      → AllAbove e.domain_id (entry_ids sub)
      → All (λ x. find x.domain_id es ≡ some x) sub
      → All (λ x. find x.domain_id (e ∷ es) ≡ some x) sub
  unfolding find
  find-tail e es [] above h = tt
  find-tail e es (x ∷ sub) above h = (ground (arith, above.0, h.0), find-tail e es sub above.1 h.1)

  find_own :
      (es : List (FinalizedDomainCheckpoint S))
      → strictly_sorted (entry_ids es) ≡ true
      → All (λ x. find x.domain_id es ≡ some x) es
  unfolding find
  find_own [] o = tt
  find_own (e ∷ es) o =
      let (above, rest) = sorted-AllAbove e.domain_id (entry_ids es) o in
      (ground arith, find-tail e es es above (find_own es rest))

  descriptors_own :
      (m : BTreeMap DomainId DomainDescriptor) (es sub : List (FinalizedDomainCheckpoint S))
      → ((id : DomainId) → get id m ≡ descriptor_or none (find id es))
      → All (λ x. find x.domain_id es ≡ some x) sub
      → All (λ x. get x.domain_id m ≡ x.descriptor) sub
  descriptors_own m es [] all h = tt
  descriptors_own m es (x ∷ sub) all h =
      (all x.domain_id ∙ ap (descriptor_or none) h.0, descriptors_own m es sub all h.1)

  -- Entries whose descriptors stand in a map are what the map makes of their domains.
  entries_back :
      (descriptors : BTreeMap DomainId DomainDescriptor) (es : List (FinalizedDomainCheckpoint S))
      → All (λ e. get e.domain_id descriptors ≡ e.descriptor) es
      → map (entry_of descriptors) (domains_of es) ≡ es
  unfolding domains_of domain_of entry_of
  entries_back descriptors [] h = refl
  entries_back descriptors (e ∷ es) h =
      let tail = entries_back descriptors es h.1 in
      let found = h.0 in
      λ i.
        record {
          domain_id = e.domain_id;
          config = e.config;
          header = e.header;
          block_hash = e.block_hash;
          state = e.state;
          descriptor = found i;
        }
        ∷ tail i

module _ (keccak256 : List ℕ → ℕ) {S : Type 0} (calls : ExecutionCalls S) where
  insert_descriptor-get :
      (n : NetworkId) (r : DomainId) (e : FinalizedDomainCheckpoint S)
      (m : BTreeMap DomainId DomainDescriptor) {m' : BTreeMap DomainId DomainDescriptor}
      (id : DomainId)
      → insert_descriptor keccak256 n r e m ≡ ok m'
      → get e.domain_id m ≡ none
      → get id m' ≡ (if e.domain_id == id then e.descriptor else get id m)
  unfolding insert_descriptor
  insert_descriptor-get n r e m id h a = elim (Option-cases e.descriptor) [
    | inl f ↦ elim (equal_or_not e.domain_id id) [
      | inl q ↦ ground (arith, f, h, q, rw q at a)
      | inr q ↦ ground (arith, f, h, q)
    ]
    | inr (d, f) ↦ ground (arith, f, h, get-insert id e.domain_id d m)
  ]

  fresh_after :
      (e : FinalizedDomainCheckpoint S) (next m : BTreeMap DomainId DomainDescriptor)
      (sub : List (FinalizedDomainCheckpoint S))
      → AllAbove e.domain_id (entry_ids sub)
      → ((id : DomainId) → get id next ≡ (if e.domain_id == id then e.descriptor else get id m))
      → All (λ x. get x.domain_id m ≡ none) sub
      → All (λ x. get x.domain_id next ≡ none) sub
  fresh_after e next m [] above kept h = tt
  fresh_after e next m (x ∷ sub) above kept h =
      (ground (arith, above.0, kept x.domain_id, h.0), fresh_after e next m sub above.1 kept h.1)

  -- The maps after the loop: what the entries tell, and else what the maps held before.
  reconstruct-get :
      (n : NetworkId) (r : DomainId) (height : ℕ) (es : List (FinalizedDomainCheckpoint S))
      (domains : BTreeMap DomainId (FinalizedDomain S))
      (descriptors : BTreeMap DomainId DomainDescriptor) (chain_ids : List ℕ)
      {out : BTreeMap DomainId (FinalizedDomain S) × BTreeMap DomainId DomainDescriptor}
      → reconstruct_checkpoint_domains keccak256 calls n r height es domains descriptors chain_ids
        ≡ ok out
      → strictly_sorted (entry_ids es) ≡ true
      → All (λ e. get e.domain_id descriptors ≡ none) es
      → IsOrdered domains
      → IsOrdered out.0
        × ((id : DomainId) → get id out.0 ≡ domain_or (get id domains) (find id es))
        × ((id : DomainId) → get id out.1 ≡ descriptor_or (get id descriptors) (find id es))
  unfolding reconstruct_checkpoint_domains find
  reconstruct-get n r height [] domains descriptors chain_ids h o fresh ordered =
      (ground (arith, h, ordered), λ id. ground (arith, h), λ id. ground (arith, h))
  reconstruct-get n r height (e ∷ es) domains descriptors chain_ids {out} h o fresh ordered =
      elim (Result-cases (insert_descriptor keccak256 n r e descriptors)) [
        | inr (x, f) ↦ absurd (ground (arith, f, h))
        | inl (next, f) ↦
            let (above, rest) = sorted-AllAbove e.domain_id (entry_ids es) o in
            let more : reconstruct_checkpoint_domains keccak256 calls n r height es
                  (map_insert e.domain_id (domain_of e) domains) next
                  (e.config.chain_id ∷ chain_ids)
                ≡ ok out =
              ground (arith, f, h) in
            let kept : (id : DomainId)
                → get id next ≡ (if e.domain_id == id then e.descriptor else get id descriptors) =
              λ id. insert_descriptor-get n r e descriptors id f fresh.0 in
            let ih =
              reconstruct-get n r height es (map_insert e.domain_id (domain_of e) domains) next
                (e.config.chain_id ∷ chain_ids) more rest
                (fresh_after e next descriptors es above kept fresh.1)
                (insert-IsOrdered e.domain_id (domain_of e) domains ordered) in
            (
              ih.0,
              λ id. elim (equal_or_not e.domain_id id) [
                | inl q ↦ ground (
                  arith,
                  q,
                  ih.1 id,
                  rw q at (find-Above e.domain_id es above),
                  get-insert id e.domain_id (domain_of e) domains,
                )
                | inr q ↦
                    ground (arith, q, ih.1 id, get-insert id e.domain_id (domain_of e) domains)
              ],
              λ id. elim (equal_or_not e.domain_id id) [
                | inl q ↦
                    ground (arith, q, ih.2 id, rw q at (find-Above e.domain_id es above), kept id)
                | inr q ↦ ground (arith, q, ih.2 id, kept id)
              ],
            )
      ]

  abbrev no_descriptors : BTreeMap DomainId DomainDescriptor
  no_descriptors = []

  none_yet :
      (es : List (FinalizedDomainCheckpoint S))
      → All (λ e. get e.domain_id no_descriptors ≡ none) es
  unfolding get
  none_yet [] = tt
  none_yet (e ∷ es) = (refl, none_yet es)

  -- If a checkpoint is accepted, then the restored view materializes exactly that checkpoint: no domain,
  -- descriptor, header or root of it is lost or altered.
  pub materialize-from_checkpoint :
      (c : FinalizedChainCheckpoint S) {s : FinalizedChainState S}
      → from_checkpoint keccak256 calls c ≡ ok s
      → materialize keccak256 s ≡ c
  unfolding from_checkpoint materialize state_of get
  materialize-from_checkpoint c {s} h =
      elim (Result-cases (
        reconstruct_checkpoint_domains keccak256 calls c.network_id c.root_domain_id c.height
          c.domains [] [] [])) [
            | inr (x, f) ↦ absurd (ground (arith, f, h))
            | inl (out, f) ↦
                let sorted : strictly_sorted (entry_ids c.domains) ≡ true = ground (arith, h) in
                let (ordered, domain, descriptor) =
                  reconstruct-get c.network_id c.root_domain_id c.height c.domains [] [] [] f sorted
                    (none_yet c.domains) tt in
                let domains : out.0 ≡ domains_of c.domains =
                  IsOrdered-ext out.0 (domains_of c.domains) ordered
                    (domains_of-IsOrdered c.domains sorted)
                    (λ id. domain id ∙ sym (get-domains_of id c.domains)) in
                let entries = entries_back out.1 c.domains (
                  descriptors_own out.1 c.domains c.domains descriptor
                    (find_own c.domains sorted)) in
                let state : s ≡ state_of keccak256 calls c out.0 out.1 = ground (arith, f, h) in
                let root : domain_heads_root keccak256 s ≡ c.domain_heads_root =
                  ground (arith, f, h) in
                let restored_entries : map (entry_of out.1) out.0 ≡ c.domains =
                  rw domains entries in
                let restored_root : domain_heads_root keccak256
                      (state_of keccak256 calls c out.0 out.1)
                    ≡ c.domain_heads_root =
                  rw state at root in
                rw state (λ i. record {
                  network_id = c.network_id;
                  height = c.height;
                  consensus_hash = c.consensus_hash;
                  timestamp = c.timestamp;
                  validator_set_hash = c.validator_set_hash;
                  next_validator_set_hash = c.next_validator_set_hash;
                  root_domain_id = c.root_domain_id;
                  governance_address = c.governance_address;
                  domain_heads_root = restored_root i;
                  domains = restored_entries i;
                })
          ]
