-- ===== src/Io.antt =====
-- The crates `completion-io` (io/src) and the module `io` of `completion` (src/io).
pub mod Base
pub mod ReadBuf
pub mod ReadBufs
pub mod WriteAll
pub mod Reader
pub mod ReadExact
pub mod Take
pub mod Chain
pub mod Copy
pub mod BufWriter
pub mod BufReader
mod Tests
