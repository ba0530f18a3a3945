-- ===== src/Gateway.antt =====
-- app/gatewaysrv: how a gateway chooses the player server of a user, and the sessions it keeps.
pub mod Ring
pub mod Routes
pub mod Pool
pub mod Indexes
pub mod Sessions
pub mod Manager
pub mod Heartbeat
pub mod RouteService
pub mod Server
