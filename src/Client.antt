-- ===== src/Client.antt =====
-- truenas_api/truenas_api.go: the websocket client, without the connection itself.
pub mod Jobs
pub mod Listen
pub mod Calls
pub mod Requests
pub mod Histories
pub mod Faults
mod Tests
