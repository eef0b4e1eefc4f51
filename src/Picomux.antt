-- ===== src/Picomux.antt =====
-- libraries/picomux, the stream multiplexer: its frames, its table of buffers, the credit loop of
-- one stream with the delivery between two ends, and the handlers of the whole mux.
pub mod Frame
pub mod BufferTable
pub mod Outgoing
pub mod Stream
pub mod Mux
pub mod Ping
