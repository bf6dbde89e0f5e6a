-- ===== src/Examples/Threads.antt =====
-- The theorems on THREAD.C at small states.
use user_level_thread_librar.Base.{ℕ, ◌<◌, ◌≡◌, refl, some, none, List, [], ◌∷◌, pos, arith, ◌⊎◌}
use user_level_thread_librar.System.State.{
  Sys, in_yield, in_fork, levels, returns, jumps, faults, sched_context, sit_bottom_context,
  put_ready,
}
use user_level_thread_librar.System.Timer.{block, unblock}
use user_level_thread_librar.System.Scheduler.{t_yield, scheduler, no_threads}
use user_level_thread_librar.System.Fork.{t_fork}
use user_level_thread_librar.System.Join.{t_join, finish_thread, waits_for_current}
use user_level_thread_librar.System.Machine.{
  Config, Reach, here, step, calls, ticks, creates_lock, in_user,
}
use user_level_thread_librar.System.Failures.{no_lock, failed_call_blocks_timer}
use user_level_thread_librar.System.Invariant.Defs.{IsWf}
use user_level_thread_librar.System.Invariant.Reachable.{Reach-IsWf}
use user_level_thread_librar.System.Priority.{Dispatched, scheduler_total}
use user_level_thread_librar.System.Switch.{left, yield_round_robin}
use user_level_thread_librar.Base.{update}
use user_level_thread_librar.System.Hang.{signal_and_tick, interrupted_signaller_hangs}
use user_level_thread_librar.System.Machine.{at_sit_bottom}
use user_level_thread_librar.Base.{◌++◌, length}
use user_level_thread_librar.Examples.States.{signals_with_lock, signals_with_lock-IsWf, first_cond}
use user_level_thread_librar.System.Preempt.{forked, fork_preempts}
use user_level_thread_librar.System.State.{◌>>=◌, in_wait, spins}
use user_level_thread_librar.Base.{◌+◌, ◌++◌, ◌≢◌}
use user_level_thread_librar.System.Fork.{t_start, allocate_memory}
use user_level_thread_librar.System.Scheduler.{scan, take_level, dispatch}
use user_level_thread_librar.System.Condition.{t_sig}
use user_level_thread_librar.System.Semaphore.{semaphore_v}
use user_level_thread_librar.System.Wake.{signalled, sig_wakes_highest, v_wakes_at_caller_level}
use user_level_thread_librar.System.Machine.{spinning, resume, settle, enter}
use user_level_thread_librar.System.Invariant.Start.{started-IsWf}
use user_level_thread_librar.System.Blocked.{woken_waiter_hangs}
use user_level_thread_librar.System.Joiners.{with_queues, joiners, finish_wakes_each_entry}
use user_level_thread_librar.System.Joining.{recorded, finish-join, finish_overflows}
use user_level_thread_librar.Examples.States.{
  alone, alone-IsWf, started, after_tick, two_ready, two_ready-counted, two_ready-above, contended,
  pair_waits, pair_waits-IsWf, queue_of_two, one_waiter, sem_waits, sem_waits-IsWf, waited,
}

Reach-IsWf_example : IsWf after_tick.0.sys
Reach-IsWf_example = Reach-IsWf started after_tick.0 alone-IsWf after_tick.1

scheduler_total_example :
    ((y : ℕ) × (t : ℕ) × (rest : List ℕ) × (y < levels)
      × (two_ready.p_queue y ≡ t ∷ rest)
      × ((z : ℕ) → y < z → z < levels → two_ready.p_queue z ≡ [])
      × Dispatched two_ready y t rest (scheduler two_ready))
    ⊎ (((z : ℕ) → z < levels → two_ready.p_queue z ≡ [])
        × (scheduler two_ready ≡ returns no_threads (block (record two_ready { first_run = 1 }))))
scheduler_total_example = scheduler_total two_ready two_ready-counted

yield_round_robin_example :
    (t_yield two_ready ≡ jumps sched_context (left two_ready in_yield 3))
    × Dispatched
        (left two_ready in_yield 3)
        3
        2
        (4 ∷ 1 ∷ [])
        (scheduler (left two_ready in_yield 3))
yield_round_robin_example =
    yield_round_robin two_ready 3 2 (4 ∷ 1 ∷ []) two_ready-counted refl (omega arith)
      two_ready-above refl

fork_preempts_example :
    (t_fork 5 7 0 [] (pos 9) two_ready
      ≡ jumps sched_context (left (forked two_ready 5 7 0 [] 9) (in_fork 2) 3))
    × Dispatched
        (left (forked two_ready 5 7 0 [] 9) (in_fork 2) 3)
        9
        5
        []
        (scheduler (left (forked two_ready 5 7 0 [] 9) (in_fork 2) 3))
fork_preempts_example =
    fork_preempts two_ready 5 7 0 [] 3 9 (λ e. ground arith) (λ e. ground arith) (omega arith) refl
      (omega arith) 5 [] two_ready-counted (omega arith) (λ z a b. ground arith) refl

finish-join_example :
    (finish_thread alone ≡ jumps sit_bottom_context (recorded alone))
    × ((m : Config)
        → Reach (record { sys = recorded alone; control = at_sit_bottom }) m
        → t_join 1 m.sys ≡ returns tt (unblock (block m.sys)))
unfolding waits_for_current
finish-join_example = finish-join alone (λ i h. refl) (omega arith)

finish_overflows_example : finish_thread (record alone { exit_thread_index = 50 }) ≡ faults
unfolding waits_for_current
finish_overflows_example =
    finish_overflows (record alone { exit_thread_index = 50 }) (λ i h. refl) (omega arith)

-- `t_start` with a thread of priority 4.
first_config :
    (k : Config) × (settle (λ c. c) ((t_start 1 (λ i. i + 100) 2 7 0 [] (pos 4) >>= enter) alone)
      ≡ some k)
unfolding t_start allocate_memory t_fork put_ready scheduler scan take_level dispatch
first_config = (_, refl)

started-IsWf_example : IsWf first_config.0.sys
started-IsWf_example =
    started-IsWf alone 1 (λ i. i + 100) 2 7 0 [] (pos 4) first_config.0 first_config.0 alone-IsWf
      (record { on_conditions = λ c k e p. cc; on_semaphores = λ c m e. cc }) first_config.1 here

sig_wakes_highest_example :
    t_sig 6 0 0 pair_waits
    ≡ returns tt (unblock (signalled (block pair_waits) 6 queue_of_two 4 4 [] 0 4))
sig_wakes_highest_example =
    sig_wakes_highest pair_waits 6 0 0 queue_of_two pair_waits-IsWf refl 4 4 4 [] (omega arith) refl
      (λ z a b. ground arith) refl (omega arith)

v_wakes_at_caller_level_example :
    (s' : Sys) × (semaphore_v 8 sem_waits ≡ returns tt s')
    × (s'.p_queue 5 ≡ [] ++ 2 ∷ [])
    × ((r : ℕ) → r ≢ 5 → s'.p_queue r ≡ [])
    × (s'.semaphores 8 ≡ some (record one_waiter { waiters = [] }))
    × ((c : ℕ) → c ≢ 8 → s'.semaphores c ≡ sem_waits.semaphores c)
v_wakes_at_caller_level_example =
    v_wakes_at_caller_level sem_waits 8 one_waiter sem_waits-IsWf refl (omega arith) 5 2 [] refl
      refl (omega arith)

woken_waiter_hangs_example :
    (resume in_wait contended ≡ spins 5 contended)
    × ((m : Config)
        → Reach (record { sys = contended; control = spinning 5 }) m
        → m ≡ record { sys = contended; control = spinning 5 })
woken_waiter_hangs_example = woken_waiter_hangs contended 5 0 refl refl refl

finish_wakes_each_entry_example :
    (queues : ℕ → List ℕ) × (counts : ℕ → ℕ) × (finish_thread waited
      ≡ jumps sit_bottom_context (with_queues waited queues counts))
    × ((q : ℕ)
        → (queues q ≡ waited.p_queue q ++ joiners waited q 50)
          × (counts q ≡ waited.thread_level_count q + length (joiners waited q 50)))
unfolding waits_for_current
finish_wakes_each_entry_example =
    finish_wakes_each_entry waited (λ i l w. (4, ground arith, omega arith)) refl

failed_call_blocks_timer_example :
    (k : Config) × (step (calls (creates_lock 0)) (record { sys = alone; control = in_user })
      ≡ some k)
    × (k.control ≡ in_user)
    × (step ticks k ≡ none)
failed_call_blocks_timer_example = failed_call_blocks_timer (creates_lock 0) alone no_lock refl

-- Thread 4 has a higher level than the signaller.
interrupted_signaller_hangs_example :
    (s' : Sys) × (signal_and_tick 6 0 5 (record { sys = signals_with_lock; control = in_user })
      ≡ some (record { sys = s'; control = spinning 5 }))
    × (s'.current ≡ 4)
    × ((m : Config)
        → Reach (record { sys = s'; control = spinning 5 }) m
        → m ≡ record { sys = s'; control = spinning 5 })
interrupted_signaller_hangs_example =
    interrupted_signaller_hangs signals_with_lock 5 0 3 6 (first_cond (update (λ p. []) 4 (4 ∷ [])))
      4 4 [] 0
      (record {
        counted = signals_with_lock-IsWf;
        held = refl;
        mine = refl;
        level = omega arith;
        condition = refl;
        waits = refl;
        first = λ z a b. ground arith;
        priority = refl;
        waits_level = omega arith;
        goes_before = omega arith;
        flag = refl;
        context = refl;
        other = λ e. omega arith;
        idle = λ z a b. refl;
        signal = refl;
      })
