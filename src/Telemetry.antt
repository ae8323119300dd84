-- ===== src/Telemetry.antt =====
-- The outbound telemetry queue: store, sender and payload (src/edge/telemetry).
pub mod Store
pub mod Opening
pub mod Sender
pub mod Contract
pub mod Payload
