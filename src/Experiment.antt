-- ===== src/Experiment.antt =====
-- tools/experiment.py: parameter combinations, the progress file and the run over all of them.
pub mod Collector
pub mod Values
pub mod Replace
pub mod Combine
pub mod Jobs
pub mod Progress
pub mod Run
pub mod Main
pub mod Cluster
pub mod Sample
mod Tests
