-- ===== src/Scripts/Invariant.antt =====
-- What holds between any two moves of a program whose priorities are nested.
use user_level_thread_librar.Base.{ℕ, ◌+◌, ◌≤◌, ◌<◌, ◌≡◌, List, [], ◌∷◌, ◌++◌, some}
use user_level_thread_librar.System.State.{Sys, Ptr, levels, max_exited}
use user_level_thread_librar.System.Machine.{
  Control, in_user, at_scheduler, at_sit_bottom, ended, spinning,
}
use user_level_thread_librar.System.Invariant.Defs.{IsWf}
use user_level_thread_librar.Scripts.{Code, Run, Move, move}
use user_level_thread_librar.Scripts.Nesting.{
  Frame, Ordered, Waiting, Runs, Chain, remaining, to_end, work,
}

abbrev pub run_of : Sys → Control → (ℕ → Code) → (ℕ → ℕ) → List ℕ → Run
run_of s k code tid out = record {
  config = record { sys = s; control = k };
  code = code;
  tid = tid;
  out = out;
}

-- How many of its own moves the library is from the code of a thread.
abbrev pub distance : Control → ℕ
distance in_user = 0
distance at_scheduler = 1
distance at_sit_bottom = 2
distance ended = 0
distance (spinning l) = 0

module _ (malloc : ℕ → Ptr) where
  -- Where the threads of the frames are.
  abbrev pub ThreadsAt : Control → Sys → List Frame → Type 0
  ThreadsAt in_user s [] = ⊥
  ThreadsAt in_user s (f ∷ fs) =
      Runs malloc s.tcbs s.current f × Waiting malloc s.tcbs s.p_queue s.tcb_waiting fs
  ThreadsAt at_scheduler s fs = Waiting malloc s.tcbs s.p_queue s.tcb_waiting fs
  ThreadsAt at_sit_bottom s fs = Waiting malloc s.tcbs s.p_queue s.tcb_waiting fs
  ThreadsAt ended s fs = fs ≡ []
  ThreadsAt (spinning l) s fs = ⊥

  -- The frames are the threads that have not ended, and `full` is what the program is to print.
  pub record Invariant (r : Run) (full : List ℕ) (fs : List Frame) : Type 0 where
    pub threads : ThreadsAt r.config.control r.config.sys fs
    pub counted : IsWf r.config.sys
    pub ordered : Ordered (r.config.sys.g_thread_id + 1) levels fs
    pub chain : Chain r.code r.tid r.config.sys.exited_thread_ids r.config.sys.exit_thread_index fs
    pub printed : r.out ++ remaining r.code fs ≡ full
    pub room : r.config.sys.exit_thread_index + to_end r.code fs ≤ max_exited

  abbrev pub measure : Run → List Frame → ℕ
  measure r fs = work r.code fs + distance r.config.control

  -- The move succeeds, keeps the invariant and comes nearer to the end.
  pub record Advances (m : Move) (r : Run) (full : List ℕ) (fs : List Frame) : Type 0 where
    pub next : Run
    pub frames : List Frame
    pub moves : move malloc m r ≡ some next
    pub keeps : Invariant next full frames
    pub nearer : measure next frames < measure r fs
