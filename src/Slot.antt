-- ===== src/Slot.antt =====
-- src/backend/slot.h: the control word of a pool slot.
pub mod Word
pub mod Meta
pub mod Protocol
pub mod Safety
mod Tests
