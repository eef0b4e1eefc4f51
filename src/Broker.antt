-- ===== src/Broker.antt =====
-- libraries/geph5-broker-protocol, the envelopes in which the broker's messages travel, and
-- binaries/geph5-broker, the service.
pub mod Envelope
pub mod Accounts
pub mod Tokens
pub mod Listings
