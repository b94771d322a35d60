-- ===== src/Egress.antt =====
-- internal/egress: the network broker and its policy.
pub mod Host
pub mod Address
pub mod Broker
pub mod Allowance
pub mod Tunnel
pub mod Proxy
pub mod Acquire
