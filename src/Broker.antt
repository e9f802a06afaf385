-- ===== src/Broker.antt =====
-- internal/broker/broker.go: the hub goroutine of the signaling broker. `Hub` has its state, the
-- other children one handler each with the theorems about it, and `Run` the event loop.
pub mod Hub
pub mod Leave
pub mod Create
pub mod Join
pub mod Relay
pub mod Run
pub mod Posts
pub mod Frames
mod Tests
