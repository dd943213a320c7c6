-- ===== src/Examples.antt =====
-- Tests of the definitions, and each theorem at an input that meets its hypotheses.
mod Vms
mod Cids
mod Chains
mod Services
mod Turns
mod Addresses
mod Naming
mod Chats
mod ChatTurns
mod Machines
mod Memory
mod Files
mod Broadcasts
mod Frames
mod Repos
