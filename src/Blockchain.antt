-- ===== src/Blockchain.antt =====
-- The directory blockchain/: the class Algorand and its verifiable random function.
pub mod Double
pub mod Binomial
pub mod Vrf
pub mod Algorand
pub mod Votes
pub mod Sortition
