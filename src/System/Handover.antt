-- ===== src/System/Handover.antt =====
-- The end of a thread that nobody joins, up to the next one.
use mathlib.Core.Option
use user_level_thread_librar.Base.{
  ℕ, ◌+◌, ◌<◌, ◌≡◌, ap, ◌∙◌, true, Option, some, List, [], ◌∷◌, ◌==◌, arith,
}
use user_level_thread_librar.System.State.{
  Sys, Ptr, levels, max_waiting, max_exited, returns, set_tcb, bind, ◌>>=◌,
}
use user_level_thread_librar.System.Timer.{block, unblock, sit_bottom}
use user_level_thread_librar.System.Scheduler.{scheduler, dispatch}
use user_level_thread_librar.System.Join.{waits_for_current}
use user_level_thread_librar.System.Machine.{
  Config, in_user, enter, settle, calls, ends, goes_on, step, proceed, user_call, exec,
}
use user_level_thread_librar.System.Priority.{taken, scheduler-taken}
use user_level_thread_librar.System.Joining.{NobodyWaits, recorded, finish-join}
use user_level_thread_librar.System.Invariant.Defs.{ReadyCounted}

-- A thread that has never run enters its function.
pub new_enters :
    (s : Sys)
    → ((s.tcbs s.current).flag == 1) ≡ true
    → bind (dispatch s) enter
      ≡ returns in_user (
          unblock (
            set_tcb s.current
              (λ b. record b { flag = 0 })
              (record s { thread_count = s.thread_count + 1 })))
unfolding dispatch
new_enters s e = rw e

-- Nobody waits for any thread, and another end can be recorded.
pub record Unjoined (s : Sys) : Type 0 where
  pub waiting : (i : ℕ) → i < max_waiting → (s.tcbs (s.tcb_waiting i)).waiting_for_tid ≡ 0
  pub room : s.exit_thread_index < max_exited

-- The running thread's function returns, and the library goes on up to the next thread.
unfoldable pub end_and_go : Config → Option Config
end_and_go k = Option.bind (step (calls ends) k) (λ m. Option.bind (step goes_on m) (step goes_on))

-- The scheduler has taken `t` from the front of level `p`.
abbrev chosen : Sys → ℕ → Ptr → List Ptr → Sys
chosen s p t rest = taken (block (recorded s)) p t rest

abbrev pub handed_over : Sys → ℕ → Ptr → List Ptr → Sys
handed_over s p t rest =
    let c = chosen s p t rest in
    unblock
      (set_tcb t (λ b. record b { flag = 0 }) (record c { thread_count = c.thread_count + 1 }))

module _ (s : Sys) (p : ℕ) (t : Ptr) (rest : List Ptr)
    (w : ReadyCounted s.thread_level_count s.p_queue) (u : Unjoined s) (l : p < levels)
    (front : s.p_queue p ≡ t ∷ rest) (above : (z : ℕ) → p < z → z < levels → s.p_queue z ≡ [])
    (new : (s.tcbs t).flag ≡ 1) where
  nobody : NobodyWaits s max_waiting
  unfolding waits_for_current
  nobody i b = ground (arith, u.waiting i b)

  scheduled : (scheduler >>= enter) (block (recorded s)) ≡ returns in_user (handed_over s p t rest)
  scheduled =
      ap (λ o. bind o enter) (scheduler-taken (block (recorded s)) p t rest w l front above)
      ∙ new_enters (chosen s p t rest) (rw new)

  -- The first thread of the highest level enters its function.
  pub end_hands_over :
      end_and_go (record { sys = s; control = in_user })
      ≡ some (record { sys = handed_over s p t rest; control = in_user })
  unfolding end_and_go step user_call exec proceed sit_bottom Option.bind
  end_hands_over =
      ap
        (λ o.
          Option.bind (settle (λ _. in_user) o) (λ m. Option.bind (step goes_on m) (step goes_on)))
        (finish-join s nobody u.room).0
      ∙ ap (settle (λ c. c)) scheduled
