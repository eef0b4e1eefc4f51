-- ===== src/Lib.antt =====
-- geph5: the protocols under a connection through the Geph network, and parts of its programs.
--
-- A client reaches an exit over a sillad pipe, which a dialer makes out of other dialers
-- (libraries/sillad). sosistab3 (libraries/sillad-sosistab3) turns such a pipe into an obfuscated,
-- encrypted one: a handshake that is sealed with a cookie, then hunks of encrypted data and padding.
-- picomux (libraries/picomux) carries many streams over one pipe, each with its own flow control.
-- mizaru2 (libraries/mizaru2) is the blind signature scheme by which the broker lets a client prove to
-- an exit that it may connect. The broker registers users, gives them such tokens, keeps the exits that
-- announce themselves, and describes routes to them through bridges. The client picks an exit, makes a
-- dialer of the routes, and opens a session, in which it proves its token; the exit then connects the
-- session's streams, to addresses that its filter lets pass. The client counts its traffic and gives
-- fake addresses to DNS names.
--
-- The files, with the code that they model:
--   Base            tests, lists, bytes, and interfaces for maps, channels and semaphores
--   Picomux/Frame         libraries/picomux/src/frame.rs
--   Picomux/BufferTable   libraries/picomux/src/buffer_table.rs
--   Picomux/Stream        libraries/picomux/src/lib.rs, the two tasks of a stream
--   Picomux/Mux           libraries/picomux/src/lib.rs, open requests and incoming frames
--   Picomux/Outgoing      libraries/picomux/src/outgoing.rs
--   Picomux/Ping          libraries/picomux/src/lib.rs, `ping_loop`
--   Sosistab/State        libraries/sillad-sosistab3/src/state.rs
--   Sosistab/Pipe         libraries/sillad-sosistab3/src/lib.rs
--   Sosistab/Handshake    libraries/sillad-sosistab3/src/handshake.rs
--   Sosistab/Dedup        libraries/sillad-sosistab3/src/dedup.rs
--   Sosistab/Accept       libraries/sillad-sosistab3/src/listener.rs and dialer.rs
--   Mizaru                libraries/mizaru2/src/lib.rs
--   Sillad/Dialer         libraries/sillad/src/dialer.rs
--   Sillad/ConnTest       libraries/sillad-conntest/src/lib.rs
--   Route                 libraries/geph5-broker-protocol/src/route.rs, geph5-misc-rpc/src/bridge.rs
--   Route/Leaf            binaries/geph5-broker/src/routes.rs
--   Route/Dialer, Exits, Cached   binaries/geph5-client/src/get_dialer.rs
--   Session/Prepend       libraries/geph5-misc-rpc/src/lib.rs
--   Session/CryptPipe     libraries/geph5-misc-rpc/src/exit.rs
--   Session/Hello         binaries/geph5-client/src/client_inner.rs and geph5-exit/src/listen.rs
--   Client/ConnToken      binaries/geph5-client/src/auth.rs, `refresh_conn_token`
--   Client/TraffCount     binaries/geph5-client/src/traffcount.rs
--   Client/SpoofDns       binaries/geph5-client/src/spoof_dns.rs
--   Exit/Allow            binaries/geph5-exit/src/allow.rs
--   Exit/Auth             binaries/geph5-exit/src/auth.rs
--   Exit/Proxy            binaries/geph5-exit/src/proxy.rs and dns.rs
--   Exit/Ipv6Net          binaries/geph5-exit/src/ipv6.rs
--   Broker/Envelope       libraries/geph5-broker-protocol/src/mac.rs and signed.rs
--   Broker/Accounts       binaries/geph5-broker/src/auth.rs and puzzle.rs
--   Broker/Tokens         binaries/geph5-broker/src/rpc_impl.rs, the calls for users
--   Broker/Listings       binaries/geph5-broker/src/rpc_impl.rs and database.rs, exits and bridges
--
-- How the code is read. Functions keep their names; a mutable object is a record that goes in and comes
-- out; an async loop is a function for one round, and what it waits for is an argument. Random draws
-- and the time are arguments. Machine integers are natural numbers, with `% 2 ^ w` where the code casts;
-- a panic is a value of its own (`none`, `overflow`, `panicked`), since the release profile checks
-- arithmetic and aborts on a panic. 64-bit counters do not wrap.
--
-- Packages are parameters with laws: DashMap, the channels and the semaphore of picomux
-- (Base/Runtime), the cipher, hash and key exchange of sosistab3 (Sosistab/Crypto), BLAKE3 with RSA
-- blind signatures (Mizaru/Packages), the hashes and signatures of messages (Broker/Envelope), and
-- serialisation and signatures of a session's start (Session/Hello). Each has a toy instance, on which
-- the tests run. A dialer is the attempt of one dial, with its time; a SQL table is its rows, and the
-- caches before some queries are left out, so that a call is one that finds nothing in them.
--
-- Fuel: `drain` gets one more than the number of raw bytes, and each hunk takes some; `levels` gets
-- the number of leaves, which is more than the depth of the tree; `next_power_of_two` gets 64 doublings;
-- `echo_loop` needs one more than the number of bytes; `read_task` and `up_loop` get the number of
-- messages that are looked at.
--
-- Not modelled: the broker's payments, vouchers, news and statistics; the client's local proxies, control
-- and VPN; the exit's rate limits; the bridge's forwarding; the user interface; and what only forwards
-- to packages or the operating system. Floats are left out: the estimate of the bandwidth enters as
-- the number that the code makes of it, and the score of an exit as its rank.
pub mod Base
pub mod Picomux
pub mod Sosistab
pub mod Mizaru
pub mod Sillad
pub mod Client
pub mod Exit
pub mod Broker
pub mod Route
pub mod Session
