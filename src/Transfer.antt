-- ===== src/Transfer.antt =====
-- internal/transfer/transfer.go: the file transfer protocol over a data channel. `Frames` has the wire
-- format, `Names` the names under which files are saved, `Receive` the in-memory receiver and `Window`
-- the send loop; the other modules are about these.
pub mod Frames
pub mod Roundtrip
pub mod Names
pub mod SafeNames
pub mod Receive
pub mod Integrity
pub mod Delivery
pub mod Window
pub mod Advance
pub mod Flow
pub mod Ending
pub mod Folder
pub mod Partial
mod Tests
