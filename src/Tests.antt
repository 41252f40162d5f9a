-- ===== src/Tests.antt =====
-- The theorems at concrete inputs, and runs of the definitions.
mod Protocols
mod Stacks
mod Requests
mod Channels
mod Arrays
mod Tables
mod Rings
mod Records
mod Hosts
mod Sidebands
mod Tuners
mod Grids
mod Executors
mod Fusions
mod Locks
mod Scopes
mod Iterators
