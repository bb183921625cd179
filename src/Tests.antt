-- ===== src/Tests.antt =====
-- Runs of the theorems at concrete inputs, with a kernel whose tables are lists.
pub mod Machine
mod EngineRuns
mod DriverRuns
mod PageRuns
mod UserRuns
mod LoadRuns
mod ScanRuns
mod ControllerRuns
mod BenchmarkRuns
