-- ===== src/Fetch.antt =====
-- ipfsnode_fetch.go: the chain of fallback gateways and the import of a CAR stream. Responses of the
-- gateways and the outcome of each block store write are arguments.
pub mod Url
pub mod Chain
pub mod Import
pub mod Reader
pub mod Counting
pub mod Laws
pub mod Completion
pub mod Outcome
pub mod Fallback
mod Tests
