-- ===== src/Chain/Compare.antt =====
-- What the comparisons of crates/arbor-chain/src/lib.rs decide: candidates that pass are equal.
use arbor.Base.{◌≡◌, refl, true, List, [], ◌∷◌, ok, length, arith}
use arbor.Base.Outcome.{bind-eq_ok}
use arbor.Primitives.{ConsensusBlockHeader, DomainBlockHeader}
use arbor.Chain.{ConsensusBlock}
use arbor.Chain.Machine.{
  same_domain_header, same_consensus_header, compare_domain_block, compare_domain_blocks,
  compare_candidate,
}

pub same_domain_header-eq : (a b : DomainBlockHeader) → same_domain_header a b ≡ true → a ≡ b
unfolding same_domain_header
same_domain_header-eq a b h = ground (arith, h)

pub same_domain_header_self : (a : DomainBlockHeader) → same_domain_header a a ≡ true
unfolding same_domain_header
same_domain_header_self a = ground arith

pub same_consensus_header-eq :
    (a b : ConsensusBlockHeader) → same_consensus_header a b ≡ true → a ≡ b
unfolding same_consensus_header
same_consensus_header-eq a b h = ground (arith, h)

pub same_consensus_header_self : (a : ConsensusBlockHeader) → same_consensus_header a a ≡ true
unfolding same_consensus_header
same_consensus_header_self a = ground arith

compare_domain_block-eq : (a b : DomainBlockHeader) → compare_domain_block a b ≡ ok tt → a ≡ b
unfolding compare_domain_block
compare_domain_block-eq a b h = same_domain_header-eq a b (ground (arith, h))

compare_domain_block_self : (a : DomainBlockHeader) → compare_domain_block a a ≡ ok tt
unfolding compare_domain_block
compare_domain_block_self a = ground (arith, same_domain_header_self a)

compare_domain_blocks-eq :
    (actual expected : List DomainBlockHeader)
    → length actual ≡ length expected
    → compare_domain_blocks actual expected ≡ ok tt
    → actual ≡ expected
unfolding compare_domain_blocks
compare_domain_blocks-eq [] [] l h = refl
compare_domain_blocks-eq [] (e ∷ ys) l h = absurd (omega (arith, l))
compare_domain_blocks-eq (a ∷ xs) [] l h = absurd (omega (arith, l))
compare_domain_blocks-eq (a ∷ xs) (e ∷ ys) l h =
    let (u, one, more) =
      bind-eq_ok (compare_domain_block a e) (λ _. compare_domain_blocks xs ys) h in
    let head : a ≡ e = compare_domain_block-eq a e one in
    let tail : xs ≡ ys = compare_domain_blocks-eq xs ys (omega (arith, l)) more in cc

compare_domain_blocks_self :
    (blocks : List DomainBlockHeader) → compare_domain_blocks blocks blocks ≡ ok tt
unfolding compare_domain_blocks
compare_domain_blocks_self [] = refl
compare_domain_blocks_self (b ∷ bs) =
    rw (compare_domain_block_self b, compare_domain_blocks_self bs) refl

-- Equal headers and results, of a candidate with as many results as expected.
pub compare_candidate-eq :
    (actual expected : ConsensusBlock)
    → length actual.domain_blocks ≡ length expected.domain_blocks
    → compare_candidate actual expected ≡ ok tt
    → (actual.header ≡ expected.header) × (actual.domain_blocks ≡ expected.domain_blocks)
unfolding compare_candidate
compare_candidate-eq actual expected l h =
    let blocks : compare_domain_blocks actual.domain_blocks expected.domain_blocks ≡ ok tt =
      ground (arith, h) in
    let headers : same_consensus_header actual.header expected.header ≡ true = ground (arith, h) in
    (
      same_consensus_header-eq actual.header expected.header headers,
      compare_domain_blocks-eq actual.domain_blocks expected.domain_blocks l blocks,
    )

pub compare_candidate_self : (block : ConsensusBlock) → compare_candidate block block ≡ ok tt
unfolding compare_candidate
compare_candidate_self block =
    ground (
      arith,
      compare_domain_blocks_self block.domain_blocks,
      same_consensus_header_self block.header,
    )
