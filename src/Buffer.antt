-- ===== src/Buffer.antt =====
-- src/buffer.cpp
pub mod Block
pub mod Store
pub mod Health
pub mod Chain
pub mod IoBuffer
pub mod Sharing
