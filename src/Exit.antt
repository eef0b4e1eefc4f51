-- ===== src/Exit.antt =====
-- binaries/geph5-exit: whom it lets in, which addresses it lets its users reach, and how it reaches them.
pub mod Allow
pub mod Auth
pub mod Proxy
pub mod Ipv6Net
pub mod Tests
