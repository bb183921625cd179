-- ===== src/User.antt =====
-- The user-space programs around the engine: predictor, scheduler, simulator and controller.
pub mod Doubles
pub mod Predictor
pub mod Process
pub mod Scheduler
pub mod Controller
pub mod Simulator
pub mod Benchmark
pub mod DriverBenchmark
