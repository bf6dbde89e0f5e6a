-- ===== src/Elevator.antt =====
-- ThreadSystemCode/TestCases/TEST5A.C, TEST5B.C, TEST5C.C and ELEVATOR.H: the elevator program.
pub mod State
pub mod Riders
pub mod Cabin
pub mod Stops
pub mod Rounds
pub mod Staying
pub mod Position
pub mod Handshake
pub mod Visits
pub mod Moves
pub mod Thread
pub mod Sweep
pub mod Guarantee
pub mod Packing
pub mod Scenarios
