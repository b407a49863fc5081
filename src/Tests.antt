-- ===== src/Tests.antt =====
-- Concrete nodes, and the theorems applied to them.
mod Fixtures
mod SpiExamples
mod DriverExamples
mod MessageExamples
mod UsbExamples
mod SyncExamples
mod EventExamples
mod LegacyExamples
mod SlaveExamples
mod SetupExamples
mod UpstreamExamples
mod RoundExamples
mod MainsExamples
mod KeyboardExamples
mod LinkExamples
mod JourneyExamples
mod FakeSpiExamples
mod SetupSentExamples
mod TransferExamples
mod SharingExamples
