-- ===== src/Infer.antt =====
-- source/wei_infer.c and include/wei_infer.h: the per-client inference engine.
pub mod Types
pub mod Windows
pub mod Score
pub mod Flags
pub mod Ledger
pub mod Engine
