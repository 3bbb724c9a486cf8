-- ===== src/Decompile.antt =====
-- lib/Decompile/LLVMLifter.cpp: helpers of the lifting of functions to source, on names (Names) and on
-- the lifted statements (Compact). The transpile model is in another repository: only the kinds that the code
-- tells apart.
pub mod Names
pub mod Args
pub mod Parts
pub mod Compact
mod Meaning
mod Tests
