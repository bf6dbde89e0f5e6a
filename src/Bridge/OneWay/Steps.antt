-- ===== src/Bridge/OneWay/Steps.antt =====
-- What can happen on the bridge, one critical section at a time.
use user_level_thread_librar.Base.{◌≡◌, ◌≢◌, List, ◌∷◌, ◌++◌, ℕ, zero, suc}
use user_level_thread_librar.Bridge.Cars.{Dir, open_road}
use user_level_thread_librar.Bridge.OneWay.{Road, arrive, depart}

pub data Step (r : Road) : Road → Type 0 where
  -- a new car
  arrives : (d : Dir) → d ≢ open_road → Step r (arrive d r)
  -- a woken car acquires the lock
  resumes :
      (xs : List Dir) (d : Dir) (ys : List Dir)
      → r.woken ≡ xs ++ d ∷ ys
      → Step r (arrive d (record r { woken = xs ++ ys }))
  departs :
      (xs : List Dir) (d : Dir) (ys : List Dir)
      → r.crossing ≡ xs ++ d ∷ ys
      → Step r (depart (xs ++ ys) r)

-- A history of `n` steps.
pub data Steps (r : Road) : ℕ → Road → Type 0 where
  none_yet : Steps r zero r
  then_one : {n : ℕ} {s t : Road} → Steps r n s → Step s t → Steps r (suc n) t
