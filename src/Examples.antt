-- ===== src/Examples.antt =====
-- Runs of the model at concrete inputs.
mod Blocks
mod Kernel
mod Lines
mod Tables
mod Devices
mod Calls
mod Halves
mod Start
mod Message
mod Order
mod Ready
mod Release
mod Map
