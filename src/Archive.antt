-- ===== src/Archive.antt =====
-- Static libraries: clua/src/link/ar_read.c and clua/src/link/ar_write.c.
mod Probe
mod Capacity
mod Walk
mod Space
mod Slots
pub mod Data
pub mod Lookup
mod Scan
pub mod Index
pub mod Answers
pub mod Queries
pub mod Sessions
pub mod Header
pub mod Open
pub mod Places
pub mod Opening
pub mod Write
mod Decimal
mod Layout
mod ReadBack
mod Passes
mod Reopen
pub mod RoundTrip
mod Tests
mod FileTests
