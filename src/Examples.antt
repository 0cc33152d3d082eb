-- ===== src/Examples.antt =====
-- Runs of the program's operations on small inputs, at which the properties are applied.
mod Data
mod Sort
mod Registry
mod Control
mod ControlProtobuf
mod Merge
mod Persistence
mod Texts
mod Threads
mod GossipThread
mod Buffers
mod Identity
mod Peers
mod Node
mod Sync
mod Start
mod Restarts
mod Main
mod RegistryTests
mod PersistenceTests
