-- ===== src/Device.antt =====
-- fuse_device.c: the character devices through which a daemon reads requests and writes answers.
pub mod Reading
pub mod Writing
pub mod Lifecycle
pub mod Table
pub mod Dangling
