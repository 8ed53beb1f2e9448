-- ===== src/Examples.antt =====
-- Concrete states of the kernel, and the theorems of the library applied to them.
pub mod Frames
pub mod Boot
pub mod Pages
pub mod Tasks
pub mod Tables
pub mod Calls
pub mod Archive
pub mod Disk
pub mod Programs
