-- ===== src/Tests.antt =====
-- The theorems at concrete inputs.
mod SchedulerTests
mod PolicyTests
mod RealtimeTests
mod StoreTests
mod SampleTests
mod PlateTests
mod SupervisorTests
mod WorkerTests
mod CircuitTests
mod IdentityTests
mod VotingTests
