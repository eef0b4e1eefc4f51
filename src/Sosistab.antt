-- ===== src/Sosistab.antt =====
-- libraries/sillad-sosistab3, the obfuscated encrypted transport: its record protection, its pipe,
-- its handshake and the listener's table of handshakes already seen.
pub mod Crypto
pub mod State
pub mod Pipe
pub mod Dedup
pub mod Handshake
pub mod Accept
