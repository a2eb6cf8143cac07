-- ===== src/Tests.antt =====
-- Sample data, and the theorems at concrete inputs.
mod Samples
mod Program
mod LoginRuns
mod RoomTests
mod RoomAsserts
mod PlayerTests
mod SystemTests
mod NetworkTests
mod StartTests
mod PlayerAsserts
