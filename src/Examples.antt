-- ===== src/Examples.antt =====
-- Concrete runs of the client's code, and the theorems at concrete inputs.
mod Packets
mod Paths
mod Wires
mod Sessions
mod Queues
mod Auths
mod Watches
mod Handles
mod Connections
mod Arrivals
mod Deliveries
