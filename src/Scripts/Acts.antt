-- ===== src/Scripts/Acts.antt =====
-- The running thread's own moves keep the invariant.
use mathlib.Core.Path.{subst}
use native.Mathlib.Numerals.{add-one}
use mathlib.Core.List.{append_assoc}
use user_level_thread_librar.Base.{
  ℕ, ◌+◌, ◌≤◌, ◌<◌, ◌≡◌, ◌≢◌, refl, sym, ap, ◌∙◌, true, Bool, List, [], ◌∷◌, ◌++◌, arith, update,
  ==-refl, some, pos,
}
use user_level_thread_librar.System.State.{Sys, Ptr, levels, max_exited, max_waiting}
use user_level_thread_librar.System.Timer.{block, unblock}
use user_level_thread_librar.System.Join.{t_join, has_exited, waits_for_current}
use user_level_thread_librar.System.Joining.{recorded, finish-join, NobodyWaits, has_exited-append}
use user_level_thread_librar.System.Machine.{
  in_user, at_scheduler, at_sit_bottom, step, exec, user_call,
}
use user_level_thread_librar.System.Invariant.Defs.{IsWf, Keeps}
use user_level_thread_librar.System.Invariant.Ready.{t_fork-IsWf}
use user_level_thread_librar.Scripts.{
  Code, function_end, prints, prints_forever, forks_thread, joins_thread, acts, move, perform,
}
use user_level_thread_librar.Scripts.Nesting.{
  Frame, Ordered, Nested, Chain, Parents, remaining, to_end, work, output, forks_of, cost,
}
use user_level_thread_librar.Scripts.Threads.{after_fork, fork-jumps, fork-Waiting}
use user_level_thread_librar.Scripts.Chain.{
  remaining-advanced, to_end-advanced, work-advanced, Parents-advanced, weaken,
}
use user_level_thread_librar.Scripts.Forked.{
  below, remaining-forked, to_end-forked, work-forked, Chain-forked,
}
use user_level_thread_librar.Scripts.Invariant.{run_of, Invariant, Advances}

module _ (malloc : ℕ → Ptr) (distinct : (i j : ℕ) → malloc i ≡ malloc j → i ≡ j)
    (allocated : (i : ℕ) → malloc i ≢ 0) (s : Sys) (code : ℕ → Code) (tid : ℕ → ℕ)
    (out full : List ℕ) (f : Frame) (fs : List Frame)
    (inv : Invariant malloc (run_of s in_user code tid out) full (f ∷ fs)) where
  me : (s.tcbs s.current).tid ≡ f.id
  me = ap (λ p. (s.tcbs p).tid) inv.threads.0.place ∙ inv.threads.0.is.1

  -- The move of the running thread, whose code is `c`.
  acting :
      (c : Code)
      → code f.id ≡ c
      → move malloc acts (run_of s in_user code tid out)
        ≡ perform malloc f.id c (run_of s in_user code tid out)
  unfolding move
  acting c e = rw (me, e)

  order : Ordered f.id f.level fs
  order = inv.ordered.2

  printed_from : (c : Code) → code f.id ≡ c → out ++ (output c ++ remaining code fs) ≡ full
  printed_from c e = subst (λ c. out ++ (output c ++ remaining code fs) ≡ full) e inv.printed

  room_from :
      (c : Code)
      → code f.id ≡ c
      → s.exit_thread_index + (1 + (forks_of c + to_end code fs)) ≤ max_exited
  room_from c e =
      subst (λ c. s.exit_thread_index + (1 + (forks_of c + to_end code fs)) ≤ max_exited) e inv.room

  work_from : (c : Code) → code f.id ≡ c → work code (f ∷ fs) ≡ cost c + work code fs
  work_from c e = ap (λ c. cost c + work code fs) e

  code_of_top :
      (c : Code)
      → code f.id ≡ c
      → (b : Bool) × Nested f.level b c
        × (b ≡ true → has_exited s.exited_thread_ids s.exit_thread_index (tid f.id) ≡ true)
  code_of_top c e = let (b, n, x) = inv.chain.0 in (b, subst (Nested f.level b) e n, x)

  -- The thread goes on at once, with `c'`.
  stays :
      (c c' : Code) (blocked : Bool) (out' : List ℕ) (b : Bool)
      → code f.id ≡ c
      → Nested f.level b c'
      → (b ≡ true → has_exited s.exited_thread_ids s.exit_thread_index (tid f.id) ≡ true)
      → out' ++ (output c' ++ remaining code fs) ≡ out ++ (output c ++ remaining code fs)
      → forks_of c' ≡ forks_of c
      → cost c' < cost c
      → perform malloc f.id c (run_of s in_user code tid out)
        ≡ some
            (run_of (record s { alarm_blocked = blocked }) in_user (update code f.id c') tid out')
      → Advances malloc acts (run_of s in_user code tid out) full (f ∷ fs)
  stays c c' blocked out' b e n x p q l m = record {
    next = run_of (record s { alarm_blocked = blocked }) in_user (update code f.id c') tid out';
    frames = f ∷ fs;
    moves = acting c e ∙ m;
    keeps = record {
      threads = inv.threads;
      counted = inv.counted;
      ordered = inv.ordered;
      chain = ((b, rw (==-refl f.id) n, x), Parents-advanced code f c' fs order tid inv.chain.1);
      printed = ap (λ l. out' ++ l) (remaining-advanced code f c' fs order) ∙ p ∙ printed_from c e;
      room = omega (arith, to_end-advanced code f c' fs order, room_from c e);
    };
    nearer = omega (arith, work-advanced code f c' fs order, work_from c e);
  }

  advance_prints :
      (word : ℕ) (c : Code)
      → code f.id ≡ prints word c
      → Advances malloc acts (run_of s in_user code tid out) full (f ∷ fs)
  unfolding perform
  advance_prints word c e =
      let (b, n, x) = code_of_top (prints word c) e in
      stays (prints word c) c s.alarm_blocked (out ++ word ∷ []) b e n x
        (append_assoc out (word ∷ []) (output c ++ remaining code fs)) refl (omega arith) refl

  advance_joins :
      (c : Code)
      → code f.id ≡ joins_thread c
      → Advances malloc acts (run_of s in_user code tid out) full (f ∷ fs)
  unfolding perform step user_call exec t_join
  advance_joins c e =
      let (b, (y, n), x) = code_of_top (joins_thread c) e in
      stays (joins_thread c) c (unblock (block s)).alarm_blocked out b e n x refl refl (omega arith)
        (rw (x y))

  -- The parent's last child has ended.
  parent_tops :
      (gs : List Frame)
      → Parents code tid f.id gs
      → Chain code tid (recorded s).exited_thread_ids (s.exit_thread_index + 1) gs
  parent_tops [] p = tt
  parent_tops (g ∷ gs) (n, child, p) = ((true, n, λ _. known), p)
    where
      known : has_exited (recorded s).exited_thread_ids (s.exit_thread_index + 1) (tid g.id) ≡ true
      known =
          rw (child, sym me, add-one)
            (has_exited-append s.exited_thread_ids s.exit_thread_index (s.tcbs s.current).tid)

  nobody : NobodyWaits s max_waiting
  unfolding waits_for_current
  nobody i l = rw (inv.threads.1.nobody i l)

  spare : s.exit_thread_index < max_exited
  spare = omega (arith, room_from (code f.id) refl)

  advance_ends :
      code f.id ≡ function_end → Advances malloc acts (run_of s in_user code tid out) full (f ∷ fs)
  unfolding perform step user_call exec
  advance_ends e = record {
    next = run_of (recorded s) at_sit_bottom code tid out;
    frames = fs;
    moves = acting function_end e ∙ rw ((finish-join s nobody spare).0);
    keeps = record {
      threads = inv.threads.1;
      counted = record {
        ready = inv.counted.ready;
        conditions = inv.counted.conditions;
        semaphores = inv.counted.semaphores;
        few_conditions = inv.counted.few_conditions;
        few_exited = omega (arith, spare);
      };
      ordered = weaken f.id (s.g_thread_id + 1) f.level levels fs (omega arith) (omega arith) order;
      chain = parent_tops fs inv.chain.1;
      printed = printed_from function_end e;
      room = omega (arith, room_from function_end e);
    };
    nearer = omega (arith, work_from function_end e);
  }

  module _ (priority : ℕ) (name : List ℕ) (body c : Code)
      (e : code f.id ≡ forks_thread priority name body c) where
    abbrev new : ℕ
    new = s.g_thread_id + 1

    abbrev child : Frame
    child = record { id = new; level = priority }

    abbrev forked_code : ℕ → Code
    forked_code = update (update code f.id c) new body

    abbrev after : Sys
    after = after_fork s (malloc new) f name priority

    advance_forks : Advances malloc acts (run_of s in_user code tid out) full (f ∷ fs)
    unfolding perform step user_call exec
    advance_forks =
        let (b, (h, l, fits, n_body, n), x) = code_of_top (forks_thread priority name body c) e in
        let known : f.id ≤ s.g_thread_id = omega (arith, inv.ordered.0) in
        let jumping =
          fork-jumps malloc distinct allocated s f fs name priority inv.threads.0 inv.threads.1
            order known h l fits inv.counted.ready in
        record {
          next = run_of after at_scheduler forked_code (update tid f.id new) out;
          frames = child ∷ f ∷ fs;
          moves = acting (forks_thread priority name body c) e ∙ rw jumping;
          keeps = record {
            threads =
                fork-Waiting malloc distinct allocated s f fs name priority inv.threads.0
                  inv.threads.1 order known h l fits inv.counted.ready;
            counted =
                subst (Keeps IsWf) jumping
                  (t_fork-IsWf (malloc new) 0 0 name (pos priority) s inv.counted);
            ordered =
                (omega arith, l, below code tid f fs new priority body c h inv.ordered.0 order);
            chain =
                Chain-forked code tid f fs new priority body c h inv.ordered.0 order
                  s.exited_thread_ids s.exit_thread_index n_body n inv.chain.1;
            printed =
                ap (λ l. out ++ l)
                  (remaining-forked code tid f fs new priority body c h inv.ordered.0 order
                    ∙ sym (append_assoc (output body) (output c) (remaining code fs)))
                ∙ printed_from (forks_thread priority name body c) e;
            room = omega (
              arith,
              to_end-forked code tid f fs new priority body c h inv.ordered.0 order,
              room_from (forks_thread priority name body c) e,
            );
          };
          nearer = omega (
            arith,
            work-forked code tid f fs new priority body c h inv.ordered.0 order,
            work_from (forks_thread priority name body c) e,
          );
        }

  -- Whatever its code is.
  pub advance_acts : Advances malloc acts (run_of s in_user code tid out) full (f ∷ fs)
  advance_acts = of (code f.id) refl
    where
      of :
          (c : Code)
          → code f.id ≡ c
          → Advances malloc acts (run_of s in_user code tid out) full (f ∷ fs)
      of function_end e = advance_ends e
      of (prints word c) e = advance_prints word c e
      of (prints_forever word) e = absurd (code_of_top (prints_forever word) e).1
      of (forks_thread priority name body c) e = advance_forks priority name body c e
      of (joins_thread c) e = advance_joins c e
