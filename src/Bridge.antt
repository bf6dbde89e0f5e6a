-- ===== src/Bridge.antt =====
-- ThreadSystemCode/TestCases/TEST3A.C, TEST3B.C, TEST3C.C: cars on a bridge of one lane.
pub mod Cars
pub mod OneWay
pub mod Convoy
pub mod Names
pub mod Fleet
pub mod Main
pub mod Opening
