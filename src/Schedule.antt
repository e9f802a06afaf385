-- ===== src/Schedule.antt =====
-- internal/schedule: uploads that are kept on the server until they are downloaded or expire. `Disk` is
-- the file system that the store works on, `Meta` the sidecar files, and `Store` the operations of
-- store.go; `Config` is config.go, `Handler` and `Requests` are handler.go, and `Cron` is the parser in
-- cleanup.go. The other modules are about these.
pub mod Disk
pub mod Meta
pub mod Store
pub mod Files
pub mod Budget
pub mod History
pub mod Keeps
pub mod Limit
pub mod Uploads
pub mod Finish
pub mod Download
pub mod Ids
pub mod Guards
pub mod Config
pub mod Handler
pub mod Requests
pub mod Access
pub mod Begun
pub mod Bounds
pub mod Chunks
pub mod Bodies
pub mod Cron
pub mod Sorting
pub mod Client
mod Tests
mod Memory
mod Fields
mod Addresses
