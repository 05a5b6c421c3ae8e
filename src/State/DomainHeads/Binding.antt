-- ===== src/State/DomainHeads/Binding.antt =====
-- What a verified proof binds: one root proves one value for a domain, unless the hash collides.
use arbor.Base.{
  equal_or_not, if◌then◌else◌, ℕ, suc, ◌-◌, ◌^◌, ◌<◌, ◌≡◌, ◌≢◌, ◌⊎◌, refl, sym, ap, ◌∙◌, inl, inr,
  true, false, Option, none, some, List, [], ◌∷◌, ◌++◌, All, ok, length, length-append, arith, ◌==◌,
  Bool-cases,
}
use arbor.Base.Bytes.{to_be_bytes, from_be_bytes, length-to_be_bytes, from_be_bytes-to_be_bytes}
use arbor.Primitives.{B256, IsWord}
use arbor.State.DomainHeads.{
  DomainHead, DomainHeadProof, smt_depth, bit, value_tag, leaf_tag, branch_tag, empty_hash,
  branch_hash, fold_path, start_hash, verify, domain_head_key, domain_head_value, leaf_hash,
}

-- The input is one of these.
abbrev pub Among : List ℕ → List (List ℕ) → Type 0
Among x [] = ⊥
Among x (y ∷ ys) = (x ≡ y) ⊎ Among x ys

-- Different inputs with one digest, the one among `xs` and the other among `ys`.
abbrev pub Collision : (List ℕ → B256) → List (List ℕ) → List (List ℕ) → Type 0
Collision keccak256 xs ys =
    (x : List ℕ) × (y : List ℕ) × Among x xs × Among y ys × (x ≢ y) × (keccak256 x ≡ keccak256 y)

abbrev Clash : (List ℕ → B256) → List ℕ → List ℕ → Type 0
Clash keccak256 x y = (x ≢ y) × (keccak256 x ≡ keccak256 y)

-- What `branch_hash` hashes, and what the verifier hashes for the leaf.
abbrev pub leaf_input : B256 → B256 → List ℕ
leaf_input key v = leaf_tag ++ (1 ∷ []) ++ to_be_bytes 32 key ++ to_be_bytes 32 v

abbrev pub value_input : DomainHead → List ℕ
value_input h = value_tag ++ to_be_bytes 32 h.domain_block_hash ++ to_be_bytes 32 h.state_root

abbrev pub branch_input : ℕ → B256 → B256 → List ℕ
branch_input d l r = branch_tag ++ to_be_bytes 2 d ++ to_be_bytes 32 l ++ to_be_bytes 32 r

pub record IsDomainHead (h : DomainHead) : Type 0 where
  pub domain_block_hash : IsWord 32 h.domain_block_hash
  pub state_root : IsWord 32 h.state_root

-- A head, if there is one, consists of 256-bit words.
abbrev pub IsHeadOption : Option DomainHead → Type 0
IsHeadOption none = Unit
IsHeadOption (some h) = IsDomainHead h

-- The fields of a proof are 256-bit words.
pub record IsDomainHeadProof (p : DomainHeadProof) : Type 0 where
  pub value : IsHeadOption p.value
  pub siblings : All (IsWord 32) p.siblings

split_append : (a a' b b' : List ℕ) → length a ≡ length a' → a ++ b ≡ a' ++ b' → (a ≡ a') × (b ≡ b')
split_append [] [] b b' h e = (refl, e)
split_append [] (x ∷ a') b b' h e = absurd (omega (arith, h))
split_append (x ∷ a) [] b b' h e = absurd (omega (arith, h))
split_append (x ∷ a) (x' ∷ a') b b' h e =
    let (p, q) = split_append a a' b b' (omega (arith, h)) (cc) in (cc, q)

to_be_bytes_injective :
    (n v w : ℕ) → IsWord n v → IsWord n w → to_be_bytes n v ≡ to_be_bytes n w → v ≡ w
to_be_bytes_injective n v w hv hw e =
    sym (from_be_bytes-to_be_bytes n v hv) ∙ ap from_be_bytes e ∙ from_be_bytes-to_be_bytes n w hw

-- Two words behind a common head.
words_injective :
    (a : List ℕ) (l r l' r' : ℕ)
    → IsWord 32 l
    → IsWord 32 r
    → IsWord 32 l'
    → IsWord 32 r'
    → a ++ to_be_bytes 32 l ++ to_be_bytes 32 r ≡ a ++ to_be_bytes 32 l' ++ to_be_bytes 32 r'
    → (l ≡ l') × (r ≡ r')
words_injective a l r l' r' hl hr hl' hr' e =
    let (same_head, tail) =
      split_append (a ++ to_be_bytes 32 l) (a ++ to_be_bytes 32 l') (to_be_bytes 32 r)
        (to_be_bytes 32 r')
        (omega (
          arith,
          length-append a (to_be_bytes 32 l),
          length-append a (to_be_bytes 32 l'),
          length-to_be_bytes 32 l,
          length-to_be_bytes 32 l',
        ))
        e in
    let (again, left) = split_append a a (to_be_bytes 32 l) (to_be_bytes 32 l') refl same_head in
    (to_be_bytes_injective 32 l l' hl hl' left, to_be_bytes_injective 32 r r' hr hr' tail)

module _ (keccak256 : List ℕ → B256) where
  -- What `verify` hashes along the path, and for the leaf.
  unfoldable pub path_inputs : B256 → List B256 → B256 → List (List ℕ)
  path_inputs key [] h = []
  path_inputs key (s ∷ ss) h =
      let rest = path_inputs key ss h in
      let d = smt_depth - suc (length ss) in
      (if bit key d == 0
        then branch_input d (fold_path keccak256 key ss h) s
        else branch_input d s (fold_path keccak256 key ss h))
      ∷ rest

  unfoldable pub start_inputs : B256 → Option DomainHead → List (List ℕ)
  start_inputs key none = (leaf_tag ++ (0 ∷ [])) ∷ []
  start_inputs key (some a) = leaf_input key (domain_head_value keccak256 a) ∷ value_input a ∷ []

  -- The same digest of two words behind a common head.
  words_collide :
      (a : List ℕ) (l r l' r' : ℕ)
      → IsWord 32 l
      → IsWord 32 r
      → IsWord 32 l'
      → IsWord 32 r'
      → keccak256 (a ++ to_be_bytes 32 l ++ to_be_bytes 32 r)
        ≡ keccak256 (a ++ to_be_bytes 32 l' ++ to_be_bytes 32 r')
      → Clash keccak256
          (a ++ to_be_bytes 32 l ++ to_be_bytes 32 r)
          (a ++ to_be_bytes 32 l' ++ to_be_bytes 32 r')
        ⊎ ((l ≡ l') × (r ≡ r'))
  words_collide a l r l' r' hl hr hl' hr' e = elim (equal_or_not l l') [
    | inl p ↦ elim (equal_or_not r r') [
      | inl q ↦ inr (p, q)
      | inr ne ↦ inl ((λ same. ne (words_injective a l r l' r' hl hr hl' hr' same).1), e)
    ]
    | inr ne ↦ inl ((λ same. ne (words_injective a l r l' r' hl hr hl' hr' same).0), e)
  ]

  branch_collide :
      (d l r l' r' : ℕ)
      → IsWord 32 l
      → IsWord 32 r
      → IsWord 32 l'
      → IsWord 32 r'
      → branch_hash keccak256 d l r ≡ branch_hash keccak256 d l' r'
      → Clash keccak256 (branch_input d l r) (branch_input d l' r') ⊎ ((l ≡ l') × (r ≡ r'))
  unfolding branch_hash
  branch_collide d l r l' r' = words_collide (branch_tag ++ to_be_bytes 2 d) l r l' r'

  fold-left :
      (key s h : B256) (ss : List B256)
      → (bit key (smt_depth - suc (length ss)) == 0) ≡ true
      → fold_path keccak256 key (s ∷ ss) h
        ≡ branch_hash keccak256 (smt_depth - suc (length ss)) (fold_path keccak256 key ss h) s
  unfolding fold_path
  fold-left key s h ss e = rw (e, fold_path) refl

  fold-right :
      (key s h : B256) (ss : List B256)
      → (bit key (smt_depth - suc (length ss)) == 0) ≡ false
      → fold_path keccak256 key (s ∷ ss) h
        ≡ branch_hash keccak256 (smt_depth - suc (length ss)) s (fold_path keccak256 key ss h)
  unfolding fold_path
  fold-right key s h ss e = rw (e, fold_path) refl

  module _ (digests : (bs : List ℕ) → keccak256 bs < 2 ^ 256) where
    branch-IsWord : (d l r : ℕ) → IsWord 32 (branch_hash keccak256 d l r)
    unfolding branch_hash
    branch-IsWord d l r = digests _

    fold-IsWord :
        (key : B256) (ss : List B256) (h : B256)
        → IsWord 32 h
        → IsWord 32 (fold_path keccak256 key ss h)
    unfolding fold_path
    fold-IsWord key [] h w = w
    fold-IsWord key (s ∷ ss) h w = elim (Bool-cases (bit key (smt_depth - suc (length ss)) == 0)) [
      | inl b ↦ rw (fold-left key s h ss b) (branch-IsWord _ _ _)
      | inr b ↦ rw (fold-right key s h ss b) (branch-IsWord _ _ _)
    ]

    -- Equal roots come from equal leaves.
    fold-binding :
        (key : B256) (ss ts : List B256) (h h' : B256)
        → length ss ≡ length ts
        → All (IsWord 32) ss
        → All (IsWord 32) ts
        → IsWord 32 h
        → IsWord 32 h'
        → fold_path keccak256 key ss h ≡ fold_path keccak256 key ts h'
        → Collision keccak256 (path_inputs key ss h) (path_inputs key ts h') ⊎ (h ≡ h')
    unfolding path_inputs
    fold-binding key [] [] h h' l ws wt w w' e = unfold fold_path in inr e
    fold-binding key [] (t ∷ ts) h h' l ws wt w w' e = absurd (omega (arith, l))
    fold-binding key (s ∷ ss) [] h h' l ws wt w w' e = absurd (omega (arith, l))
    fold-binding key (s ∷ ss) (t ∷ ts) h h' l ws wt w w' e =
        let same_length : length ts ≡ length ss = omega (arith, l) in
        let d = smt_depth - suc (length ss) in
        let ih = fold-binding key ss ts h h' (sym same_length) ws.1 wt.1 w w' in
        let below = fold-IsWord key ss h w in
        let below' = fold-IsWord key ts h' w' in
        let deeper : Collision keccak256 (path_inputs key ss h) (path_inputs key ts h') ⊎ (h ≡ h')
            → Collision keccak256 (path_inputs key (s ∷ ss) h) (path_inputs key (t ∷ ts) h')
              ⊎ (h ≡ h') =
          λ r. elim r [
            | inl (x, y, m, n, ne, c) ↦ inl (x, y, inr m, inr n, ne, c)
            | inr same ↦ inr same
          ] in
        elim (Bool-cases (bit key d == 0)) [
          | inl b ↦
              let other = rw same_length at (fold-left key t h' ts (rw same_length b)) in
              elim (branch_collide d _ s _ t below ws.0 below' wt.0
                (sym (fold-left key s h ss b) ∙ e ∙ other)) [
                  | inl c ↦ inl (_, _, inl (rw b refl), inl (rw (same_length, b) refl), c.0, c.1)
                  | inr (same_hash, _) ↦ deeper (ih same_hash)
                ]
          | inr b ↦
              let other = rw same_length at (fold-right key t h' ts (rw same_length b)) in
              elim (branch_collide d s _ t _ ws.0 below wt.0 below'
                (sym (fold-right key s h ss b) ∙ e ∙ other)) [
                  | inl c ↦ inl (_, _, inl (rw b refl), inl (rw (same_length, b) refl), c.0, c.1)
                  | inr (_, same_hash) ↦ deeper (ih same_hash)
                ]
        ]

  -- The digest of a missing leaf is no leaf's, and a leaf binds its value.
  leaf_collide :
      (key v v' : B256)
      → IsWord 32 key
      → IsWord 32 v
      → IsWord 32 v'
      → leaf_hash keccak256 key v ≡ leaf_hash keccak256 key v'
      → Clash keccak256 (leaf_input key v) (leaf_input key v') ⊎ (v ≡ v')
  unfolding leaf_hash
  leaf_collide key v v' hk hv hv' e =
      elim (words_collide (leaf_tag ++ (1 ∷ [])) key v key v' hk hv hk hv' e) [
        | inl c ↦ inl c
        | inr (_, q) ↦ inr q
      ]

  value_collide :
      (a b : DomainHead)
      → IsDomainHead a
      → IsDomainHead b
      → domain_head_value keccak256 a ≡ domain_head_value keccak256 b
      → Clash keccak256 (value_input a) (value_input b) ⊎ (a ≡ b)
  unfolding domain_head_value
  value_collide a b ha hb e =
      elim (words_collide value_tag _ _ _ _ ha.domain_block_hash ha.state_root hb.domain_block_hash
        hb.state_root e) [
          | inl c ↦ inl c
          | inr (p, q) ↦ inr (λ i. record { domain_block_hash = p i; state_root = q i })
        ]

  tag_tells :
      (key v : B256)
      → leaf_tag ++ (0 ∷ []) ≢ leaf_tag ++ (1 ∷ []) ++ to_be_bytes 32 key ++ to_be_bytes 32 v
  tag_tells key v e = omega (
    arith,
    ap length e,
    length-append (leaf_tag ++ (1 ∷ []) ++ to_be_bytes 32 key) (to_be_bytes 32 v),
    length-append (leaf_tag ++ (1 ∷ [])) (to_be_bytes 32 key),
    length-to_be_bytes 32 key,
    length-to_be_bytes 32 v,
  )

  start_collide :
      (key : B256) (x y : Option DomainHead)
      → ((bs : List ℕ) → keccak256 bs < 2 ^ 256)
      → IsWord 32 key
      → IsHeadOption x
      → IsHeadOption y
      → start_hash keccak256 key x ≡ start_hash keccak256 key y
      → Collision keccak256 (start_inputs key x) (start_inputs key y) ⊎ (x ≡ y)
  unfolding start_hash empty_hash start_inputs
  start_collide key none none digests hk hx hy e = inr refl
  start_collide key none (some b) digests hk hx hy e = inl (
    _,
    _,
    inl refl,
    inl refl,
    tag_tells key (domain_head_value keccak256 b),
    unfold leaf_hash in e,
  )
  start_collide key (some a) none digests hk hx hy e = inl (
    _,
    _,
    inl refl,
    inl refl,
    (λ q. tag_tells key (domain_head_value keccak256 a) (sym q)),
    unfold leaf_hash in e,
  )
  start_collide key (some a) (some b) digests hk hx hy e =
      let small : (h : DomainHead) → IsWord 32 (domain_head_value keccak256 h) =
        λ h. unfold domain_head_value in digests _ in
      elim (leaf_collide key _ _ hk (small a) (small b) e) [
        | inl c ↦ inl (_, _, inl refl, inl refl, c.0, c.1)
        | inr p ↦ elim (value_collide a b hx hy p) [
          | inl c ↦ inl (_, _, inr (inl refl), inr (inl refl), c.0, c.1)
          | inr q ↦ inr (ap some q)
        ]
      ]

  verify-ok :
      (p : DomainHeadProof)
      → verify keccak256 p ≡ ok tt
      → (length p.siblings ≡ smt_depth)
        × (fold_path keccak256
              (domain_head_key keccak256 p.domain_id)
              p.siblings
              (start_hash keccak256 (domain_head_key keccak256 p.domain_id) p.value)
            ≡ p.root)
  unfolding verify
  verify-ok p h = ground arith

  start-IsWord :
      (key : B256) (x : Option DomainHead)
      → ((bs : List ℕ) → keccak256 bs < 2 ^ 256)
      → IsWord 32 (start_hash keccak256 key x)
  unfolding start_hash empty_hash leaf_hash
  start-IsWord key none digests = digests _
  start-IsWord key (some h) digests = digests _

  -- Two proofs that verify for one domain under one root prove the same value, be it a head or none, or
  -- else the hash collides on what the verifier hashes for them: a branch of the one and a branch of the
  -- other, or a leaf or head of the one and of the other, differ and have the same digest. Digests have
  -- 256 bits, and the proofs' fields are words of their size.
  pub verify_binding :
      ((bs : List ℕ) → keccak256 bs < 2 ^ 256)
      → (p q : DomainHeadProof) → IsDomainHeadProof p
      → IsDomainHeadProof q
      → verify keccak256 p ≡ ok tt
      → verify keccak256 q ≡ ok tt
      → p.root ≡ q.root
      → p.domain_id ≡ q.domain_id
      → let key = domain_head_key keccak256 p.domain_id in
        Collision keccak256
          (path_inputs key p.siblings (start_hash keccak256 key p.value))
          (path_inputs key q.siblings (start_hash keccak256 key q.value))
        ⊎ (Collision keccak256 (start_inputs key p.value) (start_inputs key q.value)
            ⊎ (p.value ≡ q.value))
  verify_binding digests p q wp wq hp hq same_root same_domain =
      let key = domain_head_key keccak256 p.domain_id in
      let (length_p, path_p) = verify-ok p hp in
      let (length_q, path_q) = rw (← same_domain) at (verify-ok q hq) in
      let paths = path_p ∙ same_root ∙ sym path_q in
      elim (fold-binding digests key p.siblings q.siblings _ _ (length_p ∙ sym length_q) wp.siblings
        wq.siblings (start-IsWord key p.value digests) (start-IsWord key q.value digests) paths) [
          | inl c ↦ inl c
          | inr same_start ↦ inr (
              start_collide key p.value q.value digests (unfold domain_head_key in digests _)
                wp.value wq.value same_start)
        ]
