-- ===== src/Tests.antt =====
-- Runs of the model at concrete inputs, and the theorems applied to them.
mod FrameRuns
mod PlanRuns
mod WireRuns
mod LogRuns
mod StoreRuns
mod LineRuns
mod ReconnectRuns
mod DiscoveryRuns
mod ApplicationRuns
mod DuplexRuns
mod WorkerRuns
mod BackendRuns
mod HttpRuns
mod UploadRuns
mod IdfRuns
