-- ===== src/Egress/Tunnel.antt =====
-- internal/egress/broker.go: the host that a tunnel names must be the host that was approved.
pub mod Cursor
pub mod Hello
pub mod Fuel
pub mod RoundTrip
pub mod Check
