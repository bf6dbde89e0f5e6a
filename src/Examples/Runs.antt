-- ===== src/Examples/Runs.antt =====
-- Runs of the printing programs.
use mathlib.Core.Option
use user_level_thread_librar.Base.{
  ℕ, ◌+◌, ◌≡◌, refl, Option, inl, update, ◌==◌, if◌then◌else◌, none, some, List, [], ◌∷◌, pos,
  false, arith,
}
use user_level_thread_librar.System.State.{Sys, put_ready, in_yield, returns, spins}
use user_level_thread_librar.System.Fork.{t_start}
use user_level_thread_librar.System.Timer.{block, sit_bottom, timer_handler}
use user_level_thread_librar.System.Join.{finish_thread, t_join}
use user_level_thread_librar.System.Scheduler.{t_yield, scheduler}
use user_level_thread_librar.System.Lock.{set_lock, lock_acquire, lock_release}
use user_level_thread_librar.System.Machine.{
  step, exec, interrupt, ended, in_user, Config, calls, goes_on, yields, releases, proceed,
}
use user_level_thread_librar.System.Turns.{TakesTurns, slices, every_thread_runs}
use user_level_thread_librar.System.Exclusion.{Unreleased, at_once, and_then, acquired_stays_taken}
use user_level_thread_librar.System.Lock.{take_lock, set_lock}
use user_level_thread_librar.System.Timer.{block}
use user_level_thread_librar.Scripts.{Move, acts, proceeds, is_interrupted, function_end}
use user_level_thread_librar.Scripts.Nesting.{Nested, output, cost}
use user_level_thread_librar.Scripts.Termination.{here, then_moves}
use user_level_thread_librar.Scripts.Launch.{Fresh, interrupted_run_ends, quiet_run_ends}
use user_level_thread_librar.Scripts.{Run, finish, launch, move}
use user_level_thread_librar.Scripts.Programs.{func_a, func_a2, fee, foo, fie, far, fum, foe, fun}
use user_level_thread_librar.Examples.States.{plain, alone, alone-IsWf}

-- The globals before `main`.
abbrev pub zeroed : Sys
zeroed = record alone { g_thread_id = 0; alarm_in_blocksigs = false; current = 0; first_run = 0 }

abbrev pub place : ℕ → ℕ
place i = 100 + i

zeroed-Fresh : Fresh zeroed
zeroed-Fresh = record {
  counted = alone-IsWf;
  none_wait = record { on_conditions = λ c k e. cc; on_semaphores = λ c m e. cc };
  no_level = λ z l. refl;
}

func_a-Nested : Nested 0 false func_a
func_a-Nested = (
  omega arith,
  omega arith,
  omega arith,
  (omega arith, omega arith, omega arith, tt, (refl, tt)),
  (refl, tt),
)

abbrev nowhere : Run
nowhere = record {
  config = record { sys = zeroed; control = ended };
  code = λ i. function_end;
  tid = λ i. 0;
  out = [];
}

abbrev or_nowhere : Option Run → Run
or_nowhere none = nowhere
or_nowhere (some r) = r

-- TEST1.C, when its first thread runs, and when that has been interrupted at once.
launched1 : Run
launched1 = or_nowhere (launch place 1 (λ i. 2 + i) (b'A' ∷ []) (pos 0) func_a zeroed)

interrupted1 : Run
interrupted1 = or_nowhere (move place is_interrupted launched1)

launched1_lem : launch place 1 (λ i. 2 + i) (b'A' ∷ []) (pos 0) func_a zeroed ≡ some launched1
unfolding launched1 launch t_start put_ready
launched1_lem = refl

interrupted1_lem : move place is_interrupted launched1 ≡ some interrupted1
unfolding interrupted1 launched1 launch t_start put_ready move step interrupt timer_handler
interrupted1_lem = refl

interrupted_run_ends_example :
    (fuel : ℕ) × (u : Run) × (finish place fuel interrupted1 ≡ some u)
    × (u.config.control ≡ ended)
    × (u.out ≡ output func_a)
interrupted_run_ends_example =
    interrupted_run_ends place (λ i j e. omega (arith, e)) (λ i e. absurd (omega (arith, e))) zeroed
      1 (λ i. 2 + i) (b'A' ∷ []) 0 func_a launched1 interrupted1 zeroed-Fresh
      (λ e. absurd (omega (arith, e))) (λ e. absurd (omega (arith, e))) (omega arith) (omega arith)
      func_a-Nested (omega arith) launched1_lem (then_moves here is_interrupted interrupted1_lem)

quiet_run_ends_example :
    (r : Run) × (u : Run) × (launch place 1 (λ i. 2 + i) (b'A' ∷ []) (pos 0) func_a zeroed ≡ some r)
    × (finish place (cost func_a + 1) r ≡ some u)
    × (u.config.control ≡ ended)
    × (u.out ≡ output func_a)
quiet_run_ends_example =
    quiet_run_ends place (λ i j e. omega (arith, e)) (λ i e. absurd (omega (arith, e))) zeroed 1
      (λ i. 2 + i) (b'A' ∷ []) 0 func_a zeroed-Fresh (λ e. absurd (omega (arith, e)))
      (λ e. absurd (omega (arith, e))) (omega arith) (omega arith) func_a-Nested (omega arith)

test1 :
    Option.bind
      (launch place 1 (λ i. 2 + i) (b'A' ∷ []) (pos 0) func_a zeroed)
      (λ r. Option.map (λ (f : Run). f.out) (finish place 100 r))
    ≡ some (fee ∷ foo ∷ fie ∷ far ∷ fum ∷ foe ∷ fun ∷ [])
unfolding launch finish Option.bind t_start put_ready step exec finish_thread sit_bottom t_join
test1 = refl

-- Thread 1 of level 20 runs, and 2, 3 and 4 are ready.
abbrev four_loops : Sys
four_loops = record alone {
  p_queue = update (λ p. []) 20 (2 ∷ 3 ∷ 4 ∷ []);
  thread_level_count = update (λ p. 0) 20 3;
  tcbs = λ t. record plain { priority = pos 20; flag = if t == 1 then 0 else 1 };
}

four_loops-TakesTurns : TakesTurns four_loops 20 1 (2 ∷ 3 ∷ 4 ∷ [])
four_loops-TakesTurns = record {
  runs = refl;
  priority = refl;
  started = refl;
  queue = refl;
  above = λ z a b. ground arith;
  counted = λ p. ground arith;
  can_run = ((refl, inl refl), ((refl, inl refl), ((refl, inl refl), tt)));
  distinct = (
    (omega arith, (omega arith, (omega arith, tt))),
    ((omega arith, (omega arith, tt)), ((omega arith, tt), (tt, tt))),
  );
  signal = refl;
  open_signal = refl;
}

every_thread_runs_example :
    (s' : Sys) × (slices 2 (record { sys = four_loops; control = in_user })
      ≡ some (record { sys = s'; control = in_user }))
    × TakesTurns s' 20 3 (4 ∷ 1 ∷ 2 ∷ [])
every_thread_runs_example =
    every_thread_runs (2 ∷ []) (4 ∷ []) four_loops 20 1 3 (omega arith) four_loops-TakesTurns

-- TEST2.C: A ends, B prints twice and is interrupted, and C prints.
abbrev moves : List Move → Run → Option Run
moves [] r = some r
moves (m ∷ ms) r = Option.bind (move place m r) (moves ms)

test2 :
    Option.bind (launch place 1 (λ i. 2 + i) (b'A' ∷ []) (pos 30) func_a2 zeroed) (λ r.
      Option.map
        (λ (f : Run). f.out)
        (moves
          (acts ∷ acts ∷ acts ∷ acts ∷ acts ∷ acts ∷ proceeds ∷ proceeds ∷ acts ∷ acts
            ∷ is_interrupted ∷ proceeds ∷ proceeds ∷ acts ∷ acts ∷ acts ∷ [])
          r))
    ≡ some (50 ∷ 10 ∷ 11 ∷ 20 ∷ 21 ∷ 21 ∷ [])
unfolding launch move Option.bind t_start put_ready step exec interrupt finish_thread sit_bottom
    timer_handler
test2 = refl

-- Thread 1 has acquired lock 9, and yields; thread 2 goes on and releases lock 8.
abbrev two_locks : Sys
two_locks = record alone {
  p_queue = update (λ p. []) 3 (2 ∷ []);
  thread_level_count = update (λ p. 0) 3 1;
  tcbs = λ t. record plain { context = in_yield };
  locks = λ l. some (record { shared = 0 });
}

abbrev acquired : Sys
acquired = set_lock 9 1 (block two_locks)

other_thread_runs :
    (m : Config) × (m.sys.current ≡ 2)
    × (m.control ≡ in_user)
    × Unreleased 9 (record { sys = acquired; control = in_user }) m
unfolding step exec t_yield put_ready proceed scheduler lock_release
other_thread_runs = (
  _,
  refl,
  refl,
  and_then (and_then (and_then at_once (calls yields) tt refl) goes_on tt refl) (calls (releases 8))
      (omega arith) refl,
)

nine_acquired : lock_acquire 9 two_locks ≡ returns tt acquired
unfolding lock_acquire
nine_acquired = refl

acquired_stays_taken_example :
    (lock_acquire 9 other_thread_runs.0.sys ≡ spins 9 other_thread_runs.0.sys)
    × (take_lock 9 other_thread_runs.0.sys
        ≡ returns tt (set_lock 9 1 (block other_thread_runs.0.sys)))
acquired_stays_taken_example =
    acquired_stays_taken 9 two_locks acquired other_thread_runs.0 nine_acquired other_thread_runs.3
