-- ===== src/Tests.antt =====
-- Concrete runs, and the theorems at concrete inputs.
mod Schedule
mod Dozing
mod SlotNights
mod MpmcNights
mod FutexInstances
mod MpmcRuns
mod MpmcInstances
mod VecInstances
mod SlotRuns
mod SlotInstances
mod ExecutorInstances
mod BatchInstances
