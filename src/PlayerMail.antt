-- ===== src/PlayerMail.antt =====
-- app/playersrv/mail_service.go: a player's view of the global mails and the calls on them.
pub mod Loots
pub mod States
pub mod Service
pub mod Status
pub mod Rewards
