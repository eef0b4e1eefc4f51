-- ===== src/Client.antt =====
-- binaries/geph5-client: its history of traffic, and the fake addresses that it gives to names.
pub mod TraffCount
pub mod SpoofDns
pub mod ConnToken
