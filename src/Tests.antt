-- ===== src/Tests.antt =====
-- Runs of the program on concrete inputs, and each theorem at an input that meets its hypotheses.
mod Codec
mod ExecutorRuns
mod FallbackRuns
mod LruRuns
mod QueueRuns
mod PickRuns
mod RegistryRuns
mod Sorting
mod SseRuns
mod TransportRuns
mod AuthRuns
mod LoginRuns
mod RegionRuns
mod RequestRuns
mod ModelsRuns
mod ManagementRuns
mod ServiceRuns
mod HostRuns
mod CryptoRuns
mod ControlRuns
