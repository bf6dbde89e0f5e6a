-- ===== src/Bridge/Convoy/Steps.antt =====
-- What can happen on the bridge of TEST3C.C, one critical section at a time.
use user_level_thread_librar.Base.{◌≡◌, ◌≢◌, List, ◌∷◌, ◌++◌}
use user_level_thread_librar.Bridge.Cars.{Dir, open_road}
use user_level_thread_librar.Bridge.Convoy.{Convoy, arrive, resume, depart}

pub data Step (c : Convoy) : Convoy → Type 0 where
  arrives : (d : Dir) → d ≢ open_road → Step c (arrive d c)
  resumes :
      (xs : List Dir) (d : Dir) (ys : List Dir)
      → c.woken ≡ xs ++ d ∷ ys
      → Step c (resume d (record c { woken = xs ++ ys }))
  departs :
      (xs : List Dir) (d : Dir) (ys : List Dir)
      → c.crossing ≡ xs ++ d ∷ ys
      → Step c (depart d (xs ++ ys) c)

pub data Reach (c : Convoy) : Convoy → Type 0 where
  here : Reach c c
  next : {d e : Convoy} → Reach c d → Step d e → Reach c e
