-- ===== src/Parallel.antt =====
-- runtime/topo_parallel.cpp and topo_cost.cpp: the work-stealing pool, the tasks' ownership, the
-- life of the pool, and the cost samples.
pub mod Pool
pub mod Scan
pub mod Conserve
pub mod Task
pub mod Ownership
pub mod Lifecycle
pub mod Threads
pub mod Once
pub mod Spawning
pub mod Cost
pub mod Samples
pub mod Average
pub mod Erase
pub mod Tests
