-- ===== src/Examples.antt =====
-- Tests and concrete instances of the theorems, one module for each component.
mod FramingTests
mod ExecutorTests
mod SessionTests
mod SnapshotTests
mod MediaTests
mod LeasesTests
mod CallsTests
mod MessagesTests
mod LoginTests
mod ServerTests
mod LocksTests
mod MaintainTests
mod UploadsTests
mod StatusTests
mod PoolsTests
mod DispatchTests
mod DeliveryTests
