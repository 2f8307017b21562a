-- ===== src/Tests.antt =====
-- The theorems at concrete inputs, which meet their hypotheses.
mod Users
mod Tools
mod Shell
mod Db
mod Store
mod Specs
mod Context
mod Runtime
mod Agent
mod Chunkers
mod Commands
mod Policy
mod Concurrency
