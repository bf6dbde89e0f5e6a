-- ===== src/Examples.antt =====
-- Small inputs: tests of the definitions, and the theorems at states where their hypotheses hold.
mod States
mod Threads
mod Queues
mod Programs
mod Elevators
mod Kitchens
mod Runs
