-- ===== src/Manager.antt =====
-- cmd/main.go: the program that starts the controllers and the webhooks.
pub mod Run
pub mod Start
pub mod Tls
