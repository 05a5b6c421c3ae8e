-- ===== src/Tests.antt =====
-- Runs of the definitions, and the theorems applied to concrete data.
mod HeaderRuns
mod DomainRuns
mod ValidatorRuns
mod MempoolRuns
mod StateRuns
mod SystemRuns
mod CryptoRuns
mod ChainRuns
mod ResultRuns
mod CheckpointRuns
mod ExecutorRuns
mod CreationRuns
