-- ===== src/Examples.antt =====
-- Runs of the models on small inputs: packages/raknet/src/shared.
pub mod Transport
pub mod Codec
pub mod Receiving
pub mod Sending
pub mod Wire
pub mod Logins
pub mod Packets
pub mod Sessions
pub mod Servers
pub mod Serializers
pub mod Handshakes
pub mod Bridges
pub mod RaknetClients
pub mod Relays
