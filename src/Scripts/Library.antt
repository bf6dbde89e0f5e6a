-- ===== src/Scripts/Library.antt =====
-- The moves of the library and of the timer keep the invariant.
use user_level_thread_librar.Base.{
  ℕ, ◌≡◌, refl, ap, List, [], ◌∷◌, arith, some, none, Option, Bool, true, false, if◌then◌else◌,
}
use mathlib.Core.Path.{subst}
use mathlib.Core.Option.{some-injective}
use user_level_thread_librar.System.State.{Sys, Ptr, in_timer, returns, ◌>>=◌}
use user_level_thread_librar.System.Timer.{block, sit_bottom, timer_handler}
use user_level_thread_librar.System.Scheduler.{scheduler}
use user_level_thread_librar.System.Switch.{left}
use user_level_thread_librar.System.Machine.{
  Config, Control, in_user, at_scheduler, at_sit_bottom, ended, spinning, step, proceed, interrupt,
  goes_on, enter, settle,
}
use user_level_thread_librar.System.Invariant.Defs.{IsWf, Keeps}
use user_level_thread_librar.System.Invariant.Ready.{timer_handler-IsWf}
use user_level_thread_librar.System.Invariant.Reachable.{step-IsWf}
use user_level_thread_librar.Scripts.{Code, Run, is_interrupted, proceeds, move, on_machine}
use user_level_thread_librar.Scripts.Nesting.{Frame}
use user_level_thread_librar.Scripts.Threads.{timer-Waiting}
use user_level_thread_librar.Scripts.Dispatch.{scheduler-Resumed, scheduler_empty}
use user_level_thread_librar.Scripts.Invariant.{run_of, Invariant, Advances}

unblocked :
    (b : Bool) (o : Option Config) (r next : Run)
    → on_machine (if b then none else o) r ≡ some next
    → on_machine o r ≡ some next
unblocked true o r next h = cc
unblocked false o r next h = h

module _ (malloc : ℕ → Ptr) (distinct : (i j : ℕ) → malloc i ≡ malloc j → i ≡ j) (s : Sys)
    (code : ℕ → Code) (tid : ℕ → ℕ) (out full : List ℕ) where
  pub advance_sit_bottom :
      (fs : List Frame)
      → Invariant malloc (run_of s at_sit_bottom code tid out) full fs
      → Advances malloc proceeds (run_of s at_sit_bottom code tid out) full fs
  unfolding move step proceed sit_bottom
  advance_sit_bottom fs inv = record {
    next = run_of (block s) at_scheduler code tid out;
    frames = fs;
    moves = refl;
    keeps = record {
      threads = inv.threads;
      counted = inv.counted;
      ordered = inv.ordered;
      chain = inv.chain;
      printed = inv.printed;
      room = inv.room;
    };
    nearer = omega arith;
  }

  dispatched-IsWf :
      IsWf s → (s' : Sys) (k : Control) → (scheduler >>= enter) s ≡ returns k s' → IsWf s'
  unfolding step proceed
  dispatched-IsWf w s' k goes =
      step-IsWf goes_on (record { sys = s; control = at_scheduler })
        (record { sys = s'; control = k }) w (ap (settle (λ c. c)) goes)

  pub advance_scheduler :
      (fs : List Frame)
      → Invariant malloc (run_of s at_scheduler code tid out) full fs
      → Advances malloc proceeds (run_of s at_scheduler code tid out) full fs
  unfolding move step proceed
  advance_scheduler [] inv =
      let (s', goes) = scheduler_empty malloc distinct s inv.counted.ready inv.threads in
      let counted : IsWf s' = dispatched-IsWf inv.counted s' ended goes in
      record {
        next = run_of s' ended code tid out;
        frames = [];
        moves = ap (λ o. on_machine (settle (λ c. c) o) (run_of s at_scheduler code tid out)) goes;
        keeps = record {
          threads = refl;
          counted = counted;
          ordered = tt;
          chain = tt;
          printed = inv.printed;
          room = omega (arith, counted.few_exited);
        };
        nearer = omega arith;
      }
  advance_scheduler (f ∷ fs) inv =
      let next =
        scheduler-Resumed malloc distinct s f fs inv.threads inv.ordered.2 inv.counted.ready
          inv.ordered.1 in
      record {
        next = run_of next.after in_user code tid out;
        frames = f ∷ fs;
        moves =
            ap (λ o. on_machine (settle (λ c. c) o) (run_of s at_scheduler code tid out)) next.goes;
        keeps = record {
          threads = (next.runs, next.waiting);
          counted = dispatched-IsWf inv.counted next.after in_user next.goes;
          ordered = (omega (arith, next.same.0, inv.ordered.0), inv.ordered.1, inv.ordered.2);
          chain = rw (next.same.1, next.same.2) inv.chain;
          printed = inv.printed;
          room = omega (arith, next.same.2, inv.room);
        };
        nearer = omega arith;
      }

  -- Where the timer signal is not blocked, the running thread is suspended.
  suspended-Invariant :
      (f : Frame) (fs : List Frame)
      → Invariant malloc (run_of s in_user code tid out) full (f ∷ fs)
      → Invariant malloc (run_of (left s in_timer f.level) at_sit_bottom code tid out) full (f ∷ fs)
  suspended-Invariant f fs inv =
      let (jumping, waiting) =
        timer-Waiting malloc distinct s f fs inv.threads.0 inv.threads.1 inv.ordered.2
          inv.ordered.1 in
      record {
        threads = waiting;
        counted = subst (Keeps IsWf) jumping (timer_handler-IsWf s inv.counted);
        ordered = inv.ordered;
        chain = inv.chain;
        printed = inv.printed;
        room = inv.room;
      }

  pub interrupted-Invariant :
      (k : Control) (fs : List Frame) (next : Run)
      → Invariant malloc (run_of s k code tid out) full fs
      → move malloc is_interrupted (run_of s k code tid out) ≡ some next
      → Invariant malloc next full fs
  unfolding move step interrupt
  interrupted-Invariant in_user [] next inv e = absurd inv.threads
  interrupted-Invariant in_user (f ∷ fs) next inv e =
      let (jumping, _) =
        timer-Waiting malloc distinct s f fs inv.threads.0 inv.threads.1 inv.ordered.2
          inv.ordered.1 in
      subst (λ r. Invariant malloc r full (f ∷ fs))
        (some-injective _ next (
          rw jumping at (
            unblocked s.alarm_blocked (settle (λ _. in_user) (timer_handler s))
              (run_of s in_user code tid out) next e)))
        (suspended-Invariant f fs inv)
  interrupted-Invariant at_scheduler fs next inv e = cc
  interrupted-Invariant at_sit_bottom fs next inv e = cc
  interrupted-Invariant ended fs next inv e = cc
  interrupted-Invariant (spinning l) fs next inv e = absurd inv.threads
