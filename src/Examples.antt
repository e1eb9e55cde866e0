-- ===== src/Examples.antt =====
-- The theorems applied to concrete transactions, packets and buffers.
mod Transactions
mod Packets
mod Protocols
mod Transport
mod Services
mod Discovery
mod Requests
mod Devices
