-- ===== src/Session.antt =====
-- The session between a client and an exit: the messages of libraries/geph5-misc-rpc/src/lib.rs and
-- exit.rs, the exchange at its start (`client_auth` of binaries/geph5-client/src/client_inner.rs and
-- `handle_client` of binaries/geph5-exit/src/listen.rs), and the encryption of what follows.
pub mod Prepend
pub mod CryptPipe
pub mod Hello
pub mod Agree
pub mod Admits
pub mod Codec
pub mod Tests
