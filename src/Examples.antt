-- ===== src/Examples.antt =====
-- examples/: the programs that show how to use the clients.
pub mod Console
pub mod Serving
pub mod SyncPrograms
pub mod Benchmark
pub mod PubSub
pub mod AsyncSetGet
