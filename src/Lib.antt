-- ===== src/Lib.antt =====
-- The user-level thread library in C, with its queue, its scheduler and its test programs.
--
-- Queue (ThreadSystemCode/ThreadLibrary/QUEUE.C, QUEUE.H): `q_create`, `q_destroy`, `q_insert`,
-- `q_remove` and `q_is_empty` on an explicit heap (Queue/Memory). Queue/Chain describes the cells,
-- Queue/Fifo each call, Queue/History whole histories of calls.
-- System (ThreadSystemCode/ThreadLibrary/THREAD.C, THREADS.H): System/State holds the globals and
-- structs; Timer, Scheduler, Fork, Join, Lock, Condition and Semaphore hold one function per function
-- of THREAD.C. In System the queues are lists of threads, as Queue/History allows.
-- System/Machine composes them: a user call, a timer interrupt, or the next piece of the library's
-- own code is one step; `setjmp` names a place to go on from and `longjmp` leads there.
-- System/Priority, Switch, Turns, Preempt, Wake, Joining, Joiners, Blocked, Exclusion, Lasting,
-- Start, Failures, Hang and Invariant hold the proofs. Startup has the globals before `main` and follows
-- `t_start` to the first thread, Crew follows loops that fork threads, and Handover the end of a
-- thread that nobody joins up to the next one.
-- Program is the language of the test programs: reads and writes of the globals and calls of the
-- thread library. Program/Rely reasons about one thread among others that may write before each of
-- its steps.
-- Elevator (ThreadSystemCode/TestCases/TEST5A.C to TEST5C.C, ThreadLibrary/ELEVATOR.H): the records
-- (Elevator/State), the riders (Elevator/Riders), the elevator's thread (Elevator/Cabin for the
-- `el_` functions, Elevator/Stops and Elevator/Rounds for `ElevatorThread`) and `firstThread`
-- (Elevator/Scenarios). Staying has the rules for what holds all along a round; Position, Visits, Moves
-- and Thread keep the floors in range while no President calls, Sweep counts rounds from floor to
-- floor, and Handshake follows signals and waits. Guarantee is about the riders, Packing about the
-- argument of a rider's thread. `while(1)` is cut into rounds, of which `n` are run.
-- Bridge (ThreadSystemCode/TestCases/TEST3A.C, TEST3B.C, TEST3C.C): `Arrive` and `Depart` as steps
-- between two operations on the lock; OneWay for the first two programs, Convoy for the third.
-- OneWay/Progress shows that all cars get across, by Effects; OneWay/Signals relates the signals to
-- those of System, Convoy/Stranded is about a car alone, Names holds
-- `getDirection`, Main `main` and Fleet `funcA`, and Opening follows them to the first car.
-- Kitchen (ThreadSystemCode/TestCases/TEST4.C): the cooks and the students, in the same way; Buffer,
-- Safety, Progress and Counter hold their proofs, Semaphores relates their semaphores to those
-- of System. Main holds `main`, and Opening `funcA` and the way to the first cook.
-- Scripts (ThreadSystemCode/TestCases/TEST1.C, TEST2.C): threads that print, fork and join, each
-- with the code that it has left (Scripts/Programs); what they call is a step of System/Machine, and
-- `launch` is `main`. Nesting describes programs whose forks behave as calls; Threads, Dispatch,
-- Chain, Forked, Library and Acts follow their runs, Termination and Launch put them together.
-- Examples holds small states, and runs of the programs.
--
-- What `malloc` returns is an argument, 0 for NULL, but for the cells of the thread system's queues,
-- which `q_insert` is taken to get. An `int` is an unbounded integer, but where floors are packed.
-- Loops are recursions on the bound that the source gives them, so no fuel is needed; the loop of
-- `lock_acquire` is an outcome of its own that a later step resumes. Only `finish` in Scripts has fuel:
-- for a program of nested priorities, `cost body + 1` is enough. An interrupt can come between two
-- calls of System/Machine, among which are the parts of `lock_acquire`, of `t_wait` and of the end of a
-- thread between which the timer signal is let through; one turn of the loop at the end of a thread is not
-- interrupted. In Bridge and Kitchen the lock is taken to exclude other threads from the critical
-- sections, as it does while no time slice ends inside them. In Elevator a request to the thread
-- library returns after the other threads have written what they may; that a wait is answered is not
-- modelled, but Handshake shows that a signal precedes it.
-- Not modelled: the layout of the stack, and printing other than that of TEST1.C and TEST2.C.
pub mod Base
pub mod Queue
pub mod System
pub mod Program
pub mod Elevator
pub mod Bridge
pub mod Kitchen
pub mod Scripts
pub mod Examples
