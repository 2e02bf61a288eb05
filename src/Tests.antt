-- ===== src/Tests.antt =====
-- The results that the root's header lists, applied at concrete inputs, and runs of the models.
mod CtrlTests
mod HeadTests
mod ManifestTests
mod PoolTests
mod JournalTests
mod RingTests
mod ProtocolTests
mod QueueTests
mod TaskTests
