-- ===== src/Tests.antt =====
-- Tests of the model and instances of its theorems, on concrete data.
pub mod Fixtures
pub mod Runs
pub mod Formats
pub mod Streams
pub mod Layouts
pub mod Messages
pub mod Readers
pub mod PagedTag
pub mod Mocks
pub mod UnitTests
pub mod Tagged
pub mod Flaky
pub mod FlakyTag
