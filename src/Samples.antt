-- ===== src/Samples.antt =====
-- Runs of the model, and the theorems at concrete inputs.
mod Rooms
mod Messages
mod Collections
mod Publications
mod Sessions
mod Participants
mod Sockets
mod Nodes
mod Contexts
mod Registry
mod Protocol
mod Subscriptions
mod Publishing
mod Clients
mod Signals
