-- ===== src/Collector.antt =====
-- Package collector (internal/collector): the state of the hosts, from the last collections.
pub mod View
pub mod Sante
pub mod Backoff
pub mod Cache
pub mod Trees
pub mod Collect
pub mod Rounds
pub mod Probing
pub mod Timeline
pub mod Action
pub mod Detail
pub mod Browse
mod Tests
pub mod Samples
