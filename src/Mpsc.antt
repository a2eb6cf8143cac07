-- ===== src/Mpsc.antt =====
-- `tokio::sync::mpsc`, the unbounded channels of a crate that the program only calls. What the
-- program relies on is the record `Mpsc`; `Mpsc/Queue.antt` is a value of it.
-- A sending half is the number of its channel, since the program clones and passes it on freely;
-- the channels themselves stand in tables (`Chans`), so clones of a sender share one channel.
mod Defs
pub mod Queue
pub mod Contents
unfoldable pub use Defs.*
