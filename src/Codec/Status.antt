-- ===== src/Codec/Status.antt =====
-- The `status` byte of a domain descriptor: `value.status as u8`, and the `match` of
-- `decode_domain_descriptor` in crates/arbor-codec/src/canonical.rs.
use arbor.Base.{ℕ, zero, suc, ◌≡◌, refl, List, [], ◌∷◌, ◌++◌, ◌==◌, if◌then◌else◌, arith}
use arbor.Primitives.{DomainStatus, pending, active, frozen}
use arbor.Codec.Limits.{invalid_value}
use arbor.Codec.Decoder.{Parse, pure, ◌>>=◌, fail, u8}
use arbor.Codec.Reads.{Reads, after-Reads, byte-Reads, pure-Reads}
use arbor.Codec.Yields.{Yields, Takes, field-Yields, pure-Yields, byte-Takes, fail-Yields}

unfoldable pub status_code : DomainStatus → ℕ
status_code pending = 0
status_code active = 1
status_code frozen = 2

unfoldable pub status_of : ℕ → Parse DomainStatus
status_of b =
    if b == 0
    then pure pending
    else if b == 1
    then pure active
    else if b == 2
    then pure frozen
    else fail (invalid_value "domain status")

unfoldable pub status : Parse DomainStatus
status = do b ← u8; status_of b

pub status-Reads : (s : DomainStatus) → Reads status (status_code s ∷ []) s
unfolding status status_of status_code
status-Reads pending = after-Reads _ _ (byte-Reads (omega arith)) (pure-Reads pending)
status-Reads active = after-Reads _ _ (byte-Reads (omega arith)) (pure-Reads active)
status-Reads frozen = after-Reads _ _ (byte-Reads (omega arith)) (pure-Reads frozen)

status_of-fail : (n : ℕ) → status_of (suc (suc (suc n))) ≡ fail (invalid_value "domain status")
unfolding status_of
status_of-fail n = ground arith

status_of-Yields :
    (pre : List ℕ) (b : ℕ)
    → Yields
        (pre ++ (b ∷ []))
        (status_of b)
        (λ all s. (all ≡ pre ++ (status_code s ∷ [])) × Unit {0})
unfolding status_code
status_of-Yields pre zero = unfold status_of in pure-Yields pending _ (refl, tt)
status_of-Yields pre (suc zero) = unfold status_of in pure-Yields active _ (refl, tt)
status_of-Yields pre (suc (suc zero)) = unfold status_of in pure-Yields frozen _ (refl, tt)
status_of-Yields pre (suc (suc (suc n))) = rw (status_of-fail n) (fail-Yields _)

pub status-Takes : Takes status (λ s. status_code s ∷ []) (λ _. Unit {0})
unfolding status
status-Takes pre = field-Yields u8 _ (λ b. b ∷ []) byte-Takes (λ b w. status_of-Yields pre b)
