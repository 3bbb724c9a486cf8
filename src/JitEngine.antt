-- ===== src/JitEngine.antt =====
-- lib/JitEngine/topo_jit_engine.cpp: what the engine makes of the texts that the client gives it, before
-- LLVM compiles. `parse` is `nlohmann::json::parse` without exceptions, and `get_int` is `get<int>`;
-- `none` of the functions here is an exception of that library. Its accessors are written out.
pub mod Access
pub mod Metadata
pub mod Constraints
pub mod Reach
pub mod Pipeline
mod Closure
mod Specialized
mod Tests
