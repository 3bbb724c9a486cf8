-- ===== src/Benchmark.antt =====
-- lib/Backend/VariantBenchmark.cpp and LayoutBenchmark.cpp: which of two versions of a function is faster.
pub mod Lab
pub mod Variant
pub mod Layout
mod Cached
mod Chosen
mod Tests
