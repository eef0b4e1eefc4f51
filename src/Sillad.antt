-- ===== src/Sillad.antt =====
-- libraries/sillad: the combinators of dialers.
pub mod Dialer
pub mod ConnTest
