-- ===== src/Tests.antt =====
-- Concrete instances of the code outside the repository, and the theorems at concrete inputs.
mod Instances
mod Samples
mod StoreExamples
mod PlanningExamples
mod CycleExamples
mod PersistenceExamples
mod ScanExamples
mod RunExamples
mod PrefetchExamples
mod ConfigExamples
