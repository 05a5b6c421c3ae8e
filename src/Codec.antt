-- ===== src/Codec.antt =====
-- The canonical codec of crates/arbor-codec: limits and errors, the encoder, the decoder, one
-- module for each canonical object.
pub mod Limits
pub mod Encoder
pub mod Decoder
pub mod Reads
pub mod Yields
pub mod Frame
pub mod Vote
pub mod ConsensusHeader
pub mod DomainHeader
pub mod DomainGenesis
pub mod Status
pub mod ValidatorSet
pub mod QuorumCertificate
pub mod DomainBatch
pub mod DomainDescriptor
