-- ===== src/Tests.antt =====
-- The model run on concrete inputs.
mod RiskTests
mod PaperRuns
mod PaperTests
mod ReconcileTests
mod LiveTests
mod CandleTests
mod WireTests
mod PipelineTests
mod AdvanceTests
mod ReplayTests
