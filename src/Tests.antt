-- ===== src/Tests.antt =====
-- Concrete inputs: the theorems at values that meet their hypotheses, and runs of the models.
mod Connections
mod Answers
mod Streams
mod Futures
mod Latencies
mod Rings
mod Heaps
mod Servers
mod Quorums
mod Leases
mod Singles
mod Wires
mod Rounds
mod Clusters
