-- ===== src/Examples.antt =====
-- Concrete devices, frames and streams, and the theorems applied to them.
mod Jpeg
mod Policy
mod Codec
mod Data
mod Driver
mod Encoder
mod Raw
mod Probe
mod Lifecycle
mod Senders
mod Worker
mod Bound
mod Reports
