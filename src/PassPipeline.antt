-- ===== src/PassPipeline.antt =====
-- lib/Backend/PassPipeline.cpp: the order of the passes, what each leaves in the module's markers and in the reports.
pub mod Names
pub mod Config
pub mod State
pub mod Plain
pub mod Frame
pub mod Auto
pub mod Judged
pub mod DataLayout
pub mod Run
pub mod Stages
pub mod Each
pub mod Headers
pub mod Layouts
pub mod Reported
pub mod Finished
pub mod Trials
mod Tests
