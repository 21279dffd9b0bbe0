-- ===== src/Clients.antt =====
-- internal/controller/clients.go: the challenge and the login by which a GraphQL client is made.
pub mod Login
pub mod Keeps
pub use Login.{WxOneClients, new_wx_one_clients}
pub mod Hash
pub mod Success
pub mod Cookie
