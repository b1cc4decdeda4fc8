-- ===== src/Tests.antt =====
-- Runs of the code on small inputs, and the theorems at such inputs.
mod Data
mod Domain
mod Imageproc
mod Broker
mod Topology
mod Config
mod Server
mod Pages
mod Worker
mod Guard
mod Quiet
mod Router
mod Slots
mod Cmd
mod Pump
