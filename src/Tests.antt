-- ===== src/Tests.antt =====
-- Runs of the model at concrete inputs, and the theorems at inputs that meet their hypotheses.
pub mod Toy
pub mod CodeRuns
pub mod TrieRuns
pub mod EmbeddingRuns
pub mod ArchiveRuns
pub mod StateRuns
pub mod WitnessRuns
pub mod SnapshotRuns
pub mod ProofRuns
pub mod ToyGeth
pub mod GethRuns
pub mod OpeningRuns
mod MemoryRuns
pub mod ChainRuns
mod BindingRuns
mod PastRuns
