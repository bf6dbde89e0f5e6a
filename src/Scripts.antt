-- ===== src/Scripts.antt =====
-- ThreadSystemCode/TestCases/TEST1.C and TEST2.C: threads that print, fork and join, on System/Machine.
-- What a thread's function still has to do is a `Code`. A thread is known by its identifier, and
-- `malloc i` is the memory that the TCB of thread `i` gets.
pub mod Programs
pub mod Nesting
pub mod Threads
pub mod Dispatch
pub mod Chain
pub mod Forked
pub mod Invariant
pub mod Acts
pub mod Library
pub mod Termination
pub mod Launch
use mathlib.Core.Option
use user_level_thread_librar.Base.{
  ℕ, zero, suc, ◌+◌, ℤ, Bool, true, false, if◌then◌else◌, Option, none, some, List, [], ◌∷◌, ◌++◌,
  pos, update,
}
use user_level_thread_librar.System.State.{Sys, Ptr, ◌>>=◌}
use user_level_thread_librar.System.Fork.{t_start}
use user_level_thread_librar.System.Machine.{
  Call, ends, forks, joins, Config, Control, in_user, ended, settle, enter, calls, ticks, goes_on,
  step,
}

-- `tid = t_fork(...)` writes the function's one variable, and `t_join(tid)` reads it.
pub data Code : Type 0 where
  -- the function's end
  function_end : Code
  prints : (word : ℕ) → Code → Code
  -- `for(;;) printf(...)`
  prints_forever : (word : ℕ) → Code
  forks_thread : (priority : ℕ) (name : List ℕ) (body : Code) → Code → Code
  joins_thread : Code → Code

-- The machine, and for each thread, by its identifier, the code that is left and the variable `tid`;
-- `out` is what has been printed.
pub record Run : Type 0 where
  pub config : Config
  pub code : ℕ → Code
  pub tid : ℕ → ℕ
  pub out : List ℕ

abbrev pub running : Run → ℕ
running r = (r.config.sys.tcbs r.config.sys.current).tid

-- The machine makes a step.
abbrev pub on_machine : Option Config → Run → Option Run
on_machine o r = Option.map {B = Run} (λ k. record r { config = k }) o

-- The running thread acts, the timer interrupts it, or the library's own code goes on.
pub data Move : Type 0 where
  acts is_interrupted proceeds : Move

-- What happens next while the timer is quiet.
abbrev pub next_move : Control → Move
next_move in_user = acts
next_move _ = proceeds

abbrev pub is_ended : Control → Bool
is_ended ended = true
is_ended _ = false

module _ (malloc : ℕ → Ptr) where
  -- The next thing that the running thread `me` does. The result of `t_fork` is the identifier that
  -- the new thread gets, whether the call returns at once or when the caller is resumed.
  unfoldable pub perform : (me : ℕ) → Code → Run → Option Run
  perform me function_end r = on_machine (step (calls ends) r.config) r
  perform me (prints word c) r =
      some (record r { code = update r.code me c; out = r.out ++ word ∷ [] })
  perform me (prints_forever word) r = some (record r { out = r.out ++ word ∷ [] })
  perform me (forks_thread priority name body c) r =
      let new = r.config.sys.g_thread_id + 1 in
      on_machine (step (calls (forks (malloc new) 0 0 name (pos priority))) r.config)
        (record r { code = update (update r.code me c) new body; tid = update r.tid me new })
  perform me (joins_thread c) r =
      on_machine (step (calls (joins (r.tid me))) r.config) (record r { code = update r.code me c })

  abbrev pub perform_in : Control → Run → Option Run
  perform_in in_user r = perform (running r) (r.code (running r)) r
  perform_in _ r = none

  unfoldable pub move : Move → Run → Option Run
  unfolding perform
  move acts r = perform_in r.config.control r
  move is_interrupted r = on_machine (step ticks r.config) r
  move proceeds r = on_machine (step goes_on r.config) r

  -- Runs without an interrupt until `t_start` returns; `none` after `fuel` moves, and where the process
  -- dies.
  unfoldable pub finish : (fuel : ℕ) → Run → Option Run
  unfolding move
  finish zero r = none
  finish (suc fuel) r =
      let rest = Option.bind (move (next_move r.config.control) r) (finish fuel) in
      if is_ended r.config.control then some r else rest

  -- `main`: `t_start` forks the first thread, which runs `body`.
  unfoldable pub launch :
      (current_tcb : Ptr) (waiting_tcb : ℕ → Ptr) (name : List ℕ) (priority : ℤ) (body : Code)
      → Sys
      → Option Run
  launch current_tcb waiting_tcb name priority body s =
      let new = s.g_thread_id + 1 in
      Option.map {A = Config} {B = Run}
        (λ k. record {
          config = k;
          code = update (λ i. function_end) new body;
          tid = λ i. 0;
          out = [];
        })
        (settle (λ c. c)
          ((t_start current_tcb waiting_tcb (malloc new) 0 0 name priority >>= enter) s))
