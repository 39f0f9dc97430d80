-- ===== src/Examples.antt =====
-- The theorems at concrete inputs, over the concrete crates of `Toy`.
mod Data
mod Chunks
mod Headers
mod Texts
mod Identities
mod Files
mod Keys
mod Vaults
mod Sessions
mod Runs
mod Status
mod Journeys
mod Derived
