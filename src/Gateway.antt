-- ===== src/Gateway.antt =====
-- server/src/cmd/gateway: the process between the clients and the world: the frames of the game
-- port, the sessions, and the relay loop.
pub mod Wire
pub mod Creation
pub mod Relay
pub mod Login
pub mod AuthPort
pub mod AuthConn
pub mod Session
