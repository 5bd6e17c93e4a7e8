-- ===== src/Tests.antt =====
-- Runs at concrete inputs, and every theorem of the results at an input that exercises the code.
mod PeriphRuns
mod CpuRuns
mod SchedRuns
mod KeyboardRuns
mod SlaveRuns
mod CdicRuns
mod DiscRuns
mod Os9Runs
