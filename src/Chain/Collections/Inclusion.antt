-- ===== src/Chain/Collections/Inclusion.antt =====
-- The proofs of domain results verify: `domain_result_proof` and `DomainResultProof::verify` of
-- crates/arbor-chain/src/lib.rs.
use arbor.Base.{
  ℕ, zero, suc, ◌+◌, ◌-◌, ◌^◌, ◌/◌, ◌%◌, ◌≤◌, ◌<◌, ◌≡◌, refl, sym, ap, ◌∙◌, false, some, List, [],
  ◌∷◌, ok, length, arith, ◌==◌, if◌then◌else◌, leb, Option-cases, Result-cases, inl, inr,
  equal_or_not, none, All, ◌≢◌, ◌⊎◌,
}
use arbor.Base.Checked.{saturating_add}
use arbor.Primitives.{DomainId, DomainBlockHeader}
use arbor.Codec.DomainHeader.{encode_domain_header}
use arbor.Chain.{ConsensusBlock, max_batches_per_block}
use arbor.Chain.Collections.{
  result_leaf_tag, DomainResultProof, encode_all, position_from, nth, level_count,
  collection_branch, collection_leaf, collection_root, leaves_from, next_level, reduce,
  merkle_collection_root, domain_results_root, sibling_at, path_of, climb, domain_result_proof,
  verify_result_proof,
}

module _ (keccak256 : List ℕ → ℕ) where
  -- A round shrinks a level of more than one hash to half, rounded up.
  length-next_level :
      (d : ℕ) (l : List ℕ) → length (next_level keccak256 result_leaf_tag d l) ≡ (length l + 1) / 2
  unfolding next_level
  length-next_level d [] = omega arith
  length-next_level d (x ∷ []) = omega arith
  length-next_level d (x ∷ y ∷ r) = omega (arith, length-next_level d r)

  -- A hash and its sibling, in their order.
  abbrev branch_at : ℕ → ℕ → ℕ → ℕ → ℕ
  branch_at d cursor hash sibling =
      if cursor % 2 == 0
      then collection_branch keccak256 result_leaf_tag d hash sibling
      else collection_branch keccak256 result_leaf_tag d sibling hash

  sibling_at-shift :
      (d c : ℕ) (x y : ℕ) (l : List ℕ)
      → sibling_at keccak256 d (suc (suc c)) (x ∷ y ∷ l) ≡ sibling_at keccak256 d c l
  unfolding sibling_at nth
  sibling_at-shift d zero x y l = refl
  sibling_at-shift d (suc c) x y l =
      let parity : suc (suc (suc c)) % 2 ≡ suc c % 2 = omega arith in
      let above : suc (suc (suc c)) - 1 ≡ suc (suc c) = omega arith in
      let below : suc c - 1 ≡ c = omega arith in rw (parity, above, below) refl

  nth-next_level :
      (d c : ℕ) (l : List ℕ) {x : ℕ}
      → nth c l ≡ some x
      → nth (c / 2) (next_level keccak256 result_leaf_tag d l)
        ≡ some (branch_at d c x (sibling_at keccak256 d c l))
  unfolding nth next_level sibling_at
  nth-next_level d c [] h = absurd (ground (arith, h))
  nth-next_level d zero (x ∷ []) h = ground (arith, h)
  nth-next_level d (suc c) (x ∷ []) h = absurd (ground (arith, h))
  nth-next_level d zero (x ∷ y ∷ r) h = ground (arith, h)
  nth-next_level d (suc zero) (x ∷ y ∷ r) h = ground (arith, h)
  nth-next_level d (suc (suc c)) (x ∷ y ∷ r) h =
      let half : suc (suc c) / 2 ≡ suc (c / 2) = omega arith in
      let parity : suc (suc c) % 2 ≡ c % 2 = omega arith in
      rw (sibling_at-shift d c x y r, half, parity) (nth-next_level d c r h)

  -- Climbing along the path of a hash leads to the hash that the level reduces to, and the path is as
  -- long as the level has levels above it.
  climb-path_of :
      (fuel rounds levels d c : ℕ) (l : List ℕ) {x : ℕ}
      → nth c l ≡ some x
      → length l ≤ fuel
      → length l ≤ rounds
      → length l ≤ levels
      → d + length l < 2 ^ 16
      → (climb keccak256 d c x (path_of keccak256 fuel d c l)
          ≡ reduce keccak256 rounds result_leaf_tag d l)
        × (length (path_of keccak256 fuel d c l) ≡ level_count levels (length l))
        × (length (path_of keccak256 fuel d c l) ≤ length l)
  unfolding path_of reduce climb level_count nth
  climb-path_of fuel rounds levels d c [] h f r v b = absurd (ground (arith, h))
  climb-path_of zero rounds levels d c (y ∷ l) h f r v b = absurd (omega (arith, f))
  climb-path_of (suc fuel) zero levels d c (y ∷ l) h f r v b = absurd (omega (arith, r))
  climb-path_of (suc fuel) (suc rounds) zero d c (y ∷ l) h f r v b = absurd (omega (arith, v))
  climb-path_of (suc fuel) (suc rounds) (suc levels) d zero (y ∷ []) h f r v b = ground (arith, h)
  climb-path_of (suc fuel) (suc rounds) (suc levels) d (suc c) (y ∷ []) h f r v b =
      absurd (ground (arith, h))
  climb-path_of (suc fuel) (suc rounds) (suc levels) d c (y ∷ z ∷ l) h f r v b =
      let size = length-next_level d (y ∷ z ∷ l) in
      let deeper : saturating_add 16 d 1 ≡ suc d = omega (arith, b) in
      let up = nth-next_level d c (y ∷ z ∷ l) h in
      let ih =
        climb-path_of fuel rounds levels (suc d) (c / 2)
          (next_level keccak256 result_leaf_tag d (y ∷ z ∷ l)) up (omega (arith, size, f))
          (omega (arith, size, r)) (omega (arith, size, v)) (omega (arith, size, b)) in
      let long : leb (suc (suc (length l))) 1 ≡ false = ground arith in
      let met : reduce keccak256 (suc rounds) result_leaf_tag d (y ∷ z ∷ l)
          ≡ reduce keccak256 rounds result_leaf_tag (suc d)
              (next_level keccak256 result_leaf_tag d (y ∷ z ∷ l)) =
        ap
          (λ e.
            reduce keccak256 rounds result_leaf_tag e
              (next_level keccak256 result_leaf_tag d (y ∷ z ∷ l)))
          deeper in
      rw (met, deeper, long) (ih.0, omega (arith, rw size at ih.1), omega (arith, ih.2, size))

  encode_all-cons :
      (h : DomainBlockHeader) (hs : List DomainBlockHeader) {vs : List (List ℕ)}
      → encode_all encode_domain_header (h ∷ hs) ≡ ok vs
      → (bs : List ℕ) × (rest : List (List ℕ)) × (encode_domain_header h ≡ ok bs)
        × (encode_all encode_domain_header hs ≡ ok rest)
        × (vs ≡ bs ∷ rest)
  unfolding encode_all
  encode_all-cons h hs e = elim (Result-cases (encode_domain_header h)) [
    | inr (x, f) ↦ absurd (ground (arith, e, f))
    | inl (bs, f) ↦ elim (Result-cases (encode_all encode_domain_header hs)) [
      | inr (x, g) ↦ absurd (ground (arith, e, f, g))
      | inl (rest, g) ↦ (bs, rest, f, g, ground (arith, e, f, g))
    ]
  ]

  length-encode_all :
      (hs : List DomainBlockHeader) {vs : List (List ℕ)}
      → encode_all encode_domain_header hs ≡ ok vs
      → length vs ≡ length hs
  unfolding encode_all
  length-encode_all [] e = ground (arith, e)
  length-encode_all (h ∷ hs) e =
      let (bs, rest, _, more, same) = encode_all-cons h hs e in
      rw same (omega (arith, length-encode_all hs more))

  -- The header at the found position, and the leaf of its encoding among the leaves.
  position_from-leaf :
      (i count : ℕ) (id : DomainId) (hs : List DomainBlockHeader) {vs : List (List ℕ)} {j : ℕ}
      {h : DomainBlockHeader}
      → position_from i id hs ≡ some (j, h)
      → encode_all encode_domain_header hs ≡ ok vs
      → (bs : List ℕ) × (encode_domain_header h ≡ ok bs)
        × (h.domain_id ≡ id)
        × (j < i + length hs)
        × (i ≤ j)
        × (nth (j - i) hs ≡ some h)
        × (nth (j - i) (leaves_from keccak256 result_leaf_tag count i vs)
            ≡ some (collection_leaf keccak256 result_leaf_tag count j bs))
  unfolding position_from encode_all leaves_from nth
  position_from-leaf i count id [] p e = absurd (ground (arith, p))
  position_from-leaf i count id (h ∷ hs) {vs} {j} {h = k} p e =
      let (bs, rest, one, more, same) = encode_all-cons h hs e in
      rw same (elim (equal_or_not h.domain_id id) [
        | inl hit ↦
            let here : (i ≡ j) × (h ≡ k) = ground (arith, p, hit) in
            let start : j - i ≡ 0 = omega (arith, here.0) in
            (
              bs,
              rw (← here.1) one,
              rw (← here.1) hit,
              omega (arith, here.0),
              omega (arith, here.0),
              rw start (ground (arith, here.1)),
              rw start (ground (arith, here.0)),
            )
        | inr miss ↦
            let next : position_from (suc i) id hs ≡ some (j, k) = ground (arith, p, miss) in
            let (cs, found, named, below, above, at, leaf) =
              position_from-leaf (suc i) count id hs next more in
            let step : j - i ≡ suc (j - suc i) = omega (arith, above) in
            (cs, found, named, omega (arith, below), omega (arith, above), rw step at, rw step leaf)
      ])

  length-leaves_from :
      (count i : ℕ) (vs : List (List ℕ))
      → length (leaves_from keccak256 result_leaf_tag count i vs) ≡ length vs
  unfolding leaves_from
  length-leaves_from count i [] = refl
  length-leaves_from count i (v ∷ vs) = omega (arith, length-leaves_from count (suc i) vs)

  merkle_collection_root-cons :
      (vs : List (List ℕ))
      → 0 < length vs
      → merkle_collection_root keccak256 result_leaf_tag vs
        ≡ collection_root keccak256 result_leaf_tag (length vs) (
            reduce keccak256
              (length vs)
              result_leaf_tag
              0
              (leaves_from keccak256 result_leaf_tag (length vs) 0 vs))
  unfolding merkle_collection_root
  merkle_collection_root-cons [] h = absurd (omega (arith, h))
  merkle_collection_root-cons (v ∷ vs) h = refl

  position_from-none :
      (i : ℕ) (id : DomainId) (hs : List DomainBlockHeader)
      → position_from i id hs ≡ none
      → All (λ h. h.domain_id ≢ id) hs
  unfolding position_from
  position_from-none i id [] h = tt
  position_from-none i id (x ∷ hs) h = elim (equal_or_not x.domain_id id) [
    | inl hit ↦ absurd (ground (arith, h, hit))
    | inr miss ↦ (miss, position_from-none (suc i) id hs (ground (arith, h, miss)))
  ]

  -- A proof of the result at a position of a block, against the root in its header, that verifies.
  pub record IsProofOf (id : DomainId) (block : ConsensusBlock) (p : DomainResultProof)
      : Type 0 where
    pub root : p.root ≡ block.header.domain_results_root
    pub count : p.count ≡ length block.domain_blocks
    pub result : nth p.index block.domain_blocks ≡ some p.result
    pub named : p.result.domain_id ≡ id
    pub verified : verify_result_proof keccak256 p ≡ ok tt

  domain_result_proof-IsProofOf :
      (id : DomainId) (block : ConsensusBlock) {i : ℕ} {r : DomainBlockHeader} {vs : List (List ℕ)}
      → length block.domain_blocks ≤ max_batches_per_block
      → domain_results_root keccak256 block.domain_blocks ≡ ok block.header.domain_results_root
      → position_from 0 id block.domain_blocks ≡ some (i, r)
      → encode_all encode_domain_header block.domain_blocks ≡ ok vs
      → (p : DomainResultProof) × (domain_result_proof keccak256 id block ≡ ok (some p))
        × IsProofOf id block p
  unfolding domain_results_root domain_result_proof verify_result_proof
  domain_result_proof-IsProofOf id block {i} {r} {vs} small root found e =
      let leaves = leaves_from keccak256 result_leaf_tag (length vs) 0 vs in
      let siblings = path_of keccak256 (length vs) 0 i leaves in
      let counted = length-encode_all block.domain_blocks e in
      let width = length-leaves_from (length vs) 0 vs in
      let (bs, encoded, named, below, _, at, leaf) =
        position_from-leaf 0 (length vs) id block.domain_blocks found e in
      let start : i - 0 ≡ i = omega arith in
      let (climbed, levels, short) =
        climb-path_of (length vs) (length vs) (length vs) 0 i leaves (rw start at leaf)
          (omega (arith, width)) (omega (arith, width)) (omega (arith, width))
          (omega (arith, width, counted, small)) in
      let committed = merkle_collection_root-cons vs (omega (arith, below, counted)) in
      let p : DomainResultProof = record {
        root = block.header.domain_results_root;
        result = r;
        index = i;
        count = length vs;
        siblings = siblings;
      } in
      let top : collection_root keccak256 result_leaf_tag (length vs) (
            climb keccak256 0 i (collection_leaf keccak256 result_leaf_tag (length vs) i bs)
              siblings)
          ≡ block.header.domain_results_root =
        rw climbed (sym committed ∙ ground (arith, e, root)) in
      (
        p,
        ground (arith, found, e, small, counted, below),
        record {
          root = refl;
          count = counted;
          result = rw start at at;
          named = named;
          verified =
              ground (arith, encoded, top, rw width at levels, short, width, counted, small, below);
        },
      )

  -- Let a block of at most 256 results commit to them. Either no result is of the domain, and there is
  -- no proof, or there is one: its root is the one in the header of the block, its result is of that
  -- domain and stands in the block at its position, its count is that of the results, and it verifies.
  pub verify-domain_result_proof :
      (id : DomainId) (block : ConsensusBlock)
      → length block.domain_blocks ≤ max_batches_per_block
      → domain_results_root keccak256 block.domain_blocks ≡ ok block.header.domain_results_root
      → (All (λ h. h.domain_id ≢ id) block.domain_blocks
          × (domain_result_proof keccak256 id block ≡ ok none))
        ⊎ ((p : DomainResultProof) × (domain_result_proof keccak256 id block ≡ ok (some p))
            × IsProofOf id block p)
  unfolding domain_results_root domain_result_proof
  verify-domain_result_proof id block small root =
      elim (Option-cases (position_from 0 id block.domain_blocks)) [
        | inl none_found ↦
            inl (position_from-none 0 id block.domain_blocks none_found, ground (arith, none_found))
        | inr ((i, r), found) ↦
            elim (Result-cases (encode_all encode_domain_header block.domain_blocks)) [
              | inr (x, e) ↦ absurd (ground (arith, e, root))
              | inl (vs, e) ↦ inr (domain_result_proof-IsProofOf id block small root found e)
            ]
      ]
