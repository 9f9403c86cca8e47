-- ===== src/Examples.antt =====
-- Runs of the model on small concrete inputs.
mod Packets
mod Bulbs
mod Connections
mod Commands
mod Storage
mod Broker
mod Bridging
mod Display
mod Startup
mod Listening
mod Doubles
