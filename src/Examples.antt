-- ===== src/Examples.antt =====
-- The theorems at concrete inputs.
mod Machine
mod TwoNodes
mod Ids
mod Files
mod Network
mod Ring
mod Contents
mod Api
mod Fetch
mod Round
mod Grown
mod Gathered
mod Turns
mod Locked
