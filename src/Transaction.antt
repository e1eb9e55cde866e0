-- ===== src/Transaction.antt =====
-- rdm_dmx_async/transaction: transaction numbers, late responses, retries.
pub mod Allocator
pub mod Classifier
pub mod Policy
pub mod Outcome
pub mod Execute
pub mod Manager
