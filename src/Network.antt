-- ===== src/Network.antt =====
-- common/network.
pub mod SessionManager
pub mod Traffic
pub mod Conn
pub mod SessionClient
pub mod SessionServer
pub mod WsTransport
pub mod WsListener
