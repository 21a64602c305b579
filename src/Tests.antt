-- ===== src/Tests.antt =====
-- Runs of the models, and their theorems at concrete inputs.
mod Reservations
mod Resilience
mod Services
mod Messages
mod Domain
mod Live
mod Registry
