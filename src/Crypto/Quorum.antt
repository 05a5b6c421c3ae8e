-- ===== src/Crypto/Quorum.antt =====
-- What a verified certificate stands for: more than two thirds of the power, and any two verified
-- certificates share signers with more than a third.
use arbor.Base.{
  ℕ, ◌+◌, ◌*◌, ◌<◌, ◌≡◌, refl, true, false, ◌&&◌, some, Option-cases, inl, inr, List, [], ◌∷◌, map,
  All, Result, ok, leb, arith,
}
use arbor.Base.Checked.{checked_add}
use arbor.Base.Outcome.{
  ok_or, fail_if, map_err, map_err-eq_ok, ◌>>=◌, ◌>>◌, bind-eq_ok, require-eq_ok,
}
use arbor.Primitives.{B256, Validator, ValidatorSet, CommitSignature, QuorumCertificate}
use arbor.Codec.Limits.{strictly_sorted, check_strictly_sorted, check_limit}
use arbor.Codec.QuorumCertificate.{encode_quorum_certificate}
use arbor.Crypto.{
  Secp256k1, CryptoError, voting_power_overflow, unknown_validator, insufficient_quorum, codec,
  find_validator, add_powers, vote_of, validate_validator_set, verify_vote_signature,
  verify_signatures, verify_quorum_certificate,
}
use arbor.Crypto.Power.{
  power_where, total_power, is_in, sorted-AllAbove, not_in-AllAbove, power-add, power-and,
}

abbrev pub signers : QuorumCertificate → List ℕ
signers q = map (λ c. c.validator_id) q.signatures

abbrev pub ids : ValidatorSet → List ℕ
ids s = map (λ v. v.id) s.validators

add_powers-eq_ok :
    (vs : List Validator) (n : ℕ) {t : ℕ} → add_powers vs n ≡ ok t → t ≡ n + total_power vs
unfolding add_powers power_where
add_powers-eq_ok [] n h = ground (arith, h)
add_powers-eq_ok (v ∷ vs) n {t} h = elim (Option-cases (checked_add 128 n v.power)) [
  | inl e ↦ absurd (ground (arith, e, h))
  | inr (next, e) ↦
      let sum : next ≡ n + v.power = ground (arith, e) in
      omega (arith, sum, add_powers-eq_ok vs next (rw (e, add_powers) at h))
]

encode-sorted :
    (q : QuorumCertificate) {bs : List ℕ}
    → encode_quorum_certificate q ≡ ok bs
    → strictly_sorted (signers q) ≡ true
unfolding encode_quorum_certificate check_strictly_sorted check_limit
encode-sorted q h = ground (arith, h)

count_none : (vs : List Validator) → power_where (λ id. false) vs ≡ 0
unfolding power_where
count_none [] = refl
count_none (v ∷ vs) = omega (arith, count_none vs)

module _ (keccak256 : List ℕ → B256) (secp256k1 : Secp256k1) where
  -- A signature that verifies under the key of its validator.
  pub record IsSigned (q : QuorumCertificate) (vs : List Validator) (c : CommitSignature)
      : Type 0 where
    pub signer : Validator
    pub found : find_validator c.validator_id vs ≡ some signer
    pub verified :
        verify_vote_signature keccak256 secp256k1 signer.public_key (vote_of q c) c.signature
        ≡ ok tt

  verify_signatures-eq_ok :
      (q : QuorumCertificate) (vs : List Validator) (cs : List CommitSignature) (n : ℕ) {m : ℕ}
      → strictly_sorted (map (λ v. v.id) vs) ≡ true
      → strictly_sorted (map (λ c. c.validator_id) cs) ≡ true
      → verify_signatures keccak256 secp256k1 q vs cs n ≡ ok m
      → (m ≡ n + power_where (is_in (map (λ c. c.validator_id) cs)) vs) × All (IsSigned q vs) cs
  unfolding verify_signatures
  verify_signatures-eq_ok q vs [] n o s h = (ground (arith, h, count_none vs), tt)
  verify_signatures-eq_ok q vs (c ∷ cs) n o s h =
      let continue : ℕ → Result CryptoError ℕ =
        λ next. verify_signatures keccak256 secp256k1 q vs cs next in
      let add : Validator → Result CryptoError ℕ =
        λ v. ok_or (checked_add 128 n v.power) voting_power_overflow >>= continue in
      let check : Validator → Result CryptoError (Unit {0}) =
        λ v. verify_vote_signature keccak256 secp256k1 v.public_key (vote_of q c) c.signature in
      let (v, found, h1) =
        require-eq_ok (find_validator c.validator_id vs) unknown_validator (λ v. check v >> add v)
          h in
      let (u, verified, h2) = bind-eq_ok (check v) (λ _. add v) h1 in
      let (next, sum, h3) =
        require-eq_ok (checked_add 128 n v.power) voting_power_overflow continue h2 in
      let rest_ids = map (λ c. c.validator_id) cs in
      let (above, rest) = sorted-AllAbove c.validator_id rest_ids s in
      let ih = verify_signatures-eq_ok q vs cs next o rest h3 in
      let one =
        power-add c.validator_id (is_in rest_ids) vs v o found
          (not_in-AllAbove c.validator_id rest_ids above) in
      let added : next ≡ n + v.power = ground (arith, sum) in
      (
        omega (arith, ih.0, one, added),
        (record { signer = v; found = found; verified = verified }, ih.1),
      )

  -- If a certificate verifies against a set in ascending order of identifiers, then its signers are
  -- in ascending order, each signature verifies under the key of its validator, and the signers hold
  -- more than two thirds of the power of the set.
  pub verify_quorum_certificate_lem :
      (q : QuorumCertificate) (s : ValidatorSet)
      → strictly_sorted (ids s) ≡ true
      → verify_quorum_certificate keccak256 secp256k1 q s ≡ ok tt
      → (strictly_sorted (signers q) ≡ true)
        × All (IsSigned q s.validators) q.signatures
        × (2 * total_power s.validators < 3 * power_where (is_in (signers q)) s.validators)
  unfolding verify_quorum_certificate
  verify_quorum_certificate_lem q s o h =
      let last : ℕ → ℕ → Result CryptoError (Unit {0}) =
        λ total signed. fail_if (leb (signed * 3) (total * 2)) insufficient_quorum in
      let sum : ℕ → Result CryptoError (Unit {0}) = λ total.
        verify_signatures keccak256 secp256k1 q s.validators q.signatures 0 >>= last total in
      let powers : Result CryptoError (Unit {0}) = add_powers s.validators 0 >>= sum in
      let encoded = map_err codec (encode_quorum_certificate q) in
      let (u, valid, h1) =
        bind-eq_ok (validate_validator_set keccak256 secp256k1 s) (λ _. encoded >>= λ _. powers)
          h in
      let (bs, canonical, h2) = bind-eq_ok encoded (λ _. powers) h1 in
      let (total, added, h3) = bind-eq_ok (add_powers s.validators 0) sum h2 in
      let (signed, verified, h4) =
        bind-eq_ok (verify_signatures keccak256 secp256k1 q s.validators q.signatures 0)
          (last total) h3 in
      let sorted = encode-sorted q (map_err-eq_ok codec (encode_quorum_certificate q) canonical) in
      let counted = verify_signatures-eq_ok q s.validators q.signatures 0 o sorted verified in
      let total_eq = add_powers-eq_ok s.validators 0 added in
      let above : total * 2 < signed * 3 = ground (arith, h4) in
      (sorted, counted.1, omega (arith, counted.0, total_eq, above))

  -- Two certificates that verify against one set in ascending order of identifiers, whatever they
  -- certify, have common signers with more than a third of the power of the set.
  pub quorum_intersection :
      (p q : QuorumCertificate) (s : ValidatorSet)
      → strictly_sorted (ids s) ≡ true
      → verify_quorum_certificate keccak256 secp256k1 p s ≡ ok tt
      → verify_quorum_certificate keccak256 secp256k1 q s ≡ ok tt
      → total_power s.validators
        < 3 * power_where (λ id. is_in (signers p) id && is_in (signers q) id) s.validators
  quorum_intersection p q s o hp hq =
      let one = verify_quorum_certificate_lem p s o hp in
      let two = verify_quorum_certificate_lem q s o hq in
      omega (arith, one.2, two.2, power-and (is_in (signers p)) (is_in (signers q)) s.validators)
