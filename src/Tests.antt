-- ===== src/Tests.antt =====
-- Concrete inputs: the theorems applied to them, and runs of the operations.
mod OperationTests
mod NodeTests
mod TopologyTests
mod WireTests
mod NetworkTests
mod RouterTests
mod ExchangeTests
mod ReliableTests
mod RegistrationTests
mod HandlerTests
mod ManagerTests
mod DiscoveryTests
mod AppTests
mod SimulatorTests
mod RunTests
