-- ===== src/Tests.antt =====
-- Runs of the model and the theorems at concrete inputs.
mod Toy
mod Overlay
mod Registry
mod Sessions
mod Motion
mod Plays
mod Scenery
mod Secrets
mod Front
mod Servers
mod Stores
