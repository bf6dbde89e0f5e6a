-- ===== src/Bridge/OneWay/Signals.antt =====
-- `t_sig` of ThreadLibrary/THREAD.C does what the bridge takes it to do, with cars of priority 10.
use mathlib.Core.Path.{subst}
use mathlib.Core.List.{append-nil, append_assoc}
use user_level_thread_librar.Base.{
  zero, suc, ℕ, ◌<◌, ◌≡◌, ◌≢◌, refl, arith, List, [], ◌∷◌, ◌++◌, map, pos, Bool-cases, ◌==◌, some,
  inl, inr, sym, ap, ◌∙◌, update, Option,
}
use user_level_thread_librar.System.State.{M, pure, ◌>>◌, Sys, Ptr, Condition, returns, levels, at}
use user_level_thread_librar.System.Timer.{block, unblock}
use user_level_thread_librar.System.Condition.{t_sig}
use user_level_thread_librar.System.Invariant.Defs.{IsWf, Keeps}
use user_level_thread_librar.System.Invariant.Conditions.{t_sig-IsWf}
use user_level_thread_librar.System.Wake.{sig_wakes_highest, sig_lost, signalled}
use user_level_thread_librar.Bridge.Cars.{Dir}
use user_level_thread_librar.Bridge.OneWay.{Road, signal, broadcast}

-- The level of the cars.
abbrev pub car_level : ℕ
car_level = 10

abbrev pub HavePriority : Sys → List Ptr → Type 0
HavePriority s [] = Unit {0}
HavePriority s (t ∷ ts) = ((s.tcbs t).priority ≡ pos car_level) × HavePriority s ts

-- The waiters of the condition at `c` are the cars of `waiting`, thread `t` being a car that goes in
-- direction `dir t`.
abbrev pub Shows : (dir : Ptr → Dir) → Sys → Ptr → List Dir → Type 0
Shows dir s c waiting =
    (k : Condition) × (at s.conditions c ≡ some k)
    × (map dir (k.waiters car_level) ≡ waiting)
    × ((z : ℕ) → z ≢ car_level → k.waiters z ≡ [])
    × HavePriority s (k.waiters car_level)

at-update :
    (f : Ptr → Option Condition) (p : Ptr) (m m' : Condition)
    → at f p ≡ some m
    → at (update f p (some m')) p ≡ some m'
at-update f p m m' e = ground arith

-- The argument of a thread does not count.
HavePriority-set_tcb :
    (s : Sys) (f : Sys → Sys) (ts : List Ptr)
    → ((t : Ptr) → ((f s).tcbs t).priority ≡ (s.tcbs t).priority)
    → HavePriority s ts
    → HavePriority (f s) ts
HavePriority-set_tcb s f [] same h = tt
HavePriority-set_tcb s f (t ∷ ts) same (e, h) = (same t ∙ e, HavePriority-set_tcb s f ts same h)

none_at :
    {waiters : ℕ → List Ptr}
    → waiters car_level ≡ []
    → ((z : ℕ) → z ≢ car_level → waiters z ≡ [])
    → (z : ℕ) → z < levels
    → waiters z ≡ []
none_at here others z l = elim (Bool-cases (z == car_level)) [
  | inl e ↦ (let same : z ≡ car_level = ground arith in rw same here)
  | inr ne ↦ others z (ground arith)
]

map-append : (f : Ptr → Dir) (xs ys : List Ptr) → map f (xs ++ ys) ≡ map f xs ++ map f ys
map-append f [] ys = refl
map-append f (x ∷ xs) ys = ap {B = List Dir} (λ l. f x ∷ l) (map-append f xs ys)

module _ (dir : Ptr → Dir) (s : Sys) (c lock : Ptr) (val : ℕ) (w : IsWf s) where
  signal_waiters :
      (k : Condition) (ts : List Ptr)
      → at s.conditions c ≡ some k
      → k.waiters car_level ≡ ts
      → ((z : ℕ) → z ≢ car_level → k.waiters z ≡ [])
      → HavePriority s ts
      → (r : Road) → map dir ts ≡ r.waiting
      → (s' : Sys) × (woken : List Ptr) × (t_sig c val lock s ≡ returns tt s')
        × Shows dir s' c (signal r).waiting
        × (s'.p_queue car_level ≡ s.p_queue car_level ++ woken)
        × ((signal r).woken ≡ r.woken ++ map dir woken)
  unfolding signal
  signal_waiters k [] e here others pr r m = (
    unblock (block s),
    [],
    sig_lost s c lock val k w e (none_at here others),
    (k, e, rw (here, sym m), others, rw here tt),
    sym (append-nil (s.p_queue car_level)),
    rw (sym m) (sym (append-nil r.woken)),
  )
  signal_waiters k (t ∷ rest) e here others (p, pr) r m = (
    unblock (signalled (block s) c k car_level t rest lock car_level),
    t ∷ [],
    sig_wakes_highest s c lock val k w e car_level car_level t rest (omega arith) here
        (λ z a b. others z (ground arith)) p (omega arith),
    (
      record k { waiters = update k.waiters car_level rest },
      at-update s.conditions c k _ e,
      rw (sym m),
      (λ z ne. rw (others z ne) (ground arith)),
      HavePriority-set_tcb s
          (λ _. unblock (signalled (block s) c k car_level t rest lock car_level)) rest
          (λ q. ground arith) pr,
    ),
    refl,
    rw (sym m),
  )

-- A call of `t_sig` on the condition of the bridge.
signal-Shows :
    (dir : Ptr → Dir) (s : Sys) (c lock : Ptr) (val : ℕ) (r : Road)
    → IsWf s
    → Shows dir s c r.waiting
    → (s' : Sys) × (woken : List Ptr) × (t_sig c val lock s ≡ returns tt s')
      × Shows dir s' c (signal r).waiting
      × (s'.p_queue car_level ≡ s.p_queue car_level ++ woken)
      × ((signal r).woken ≡ r.woken ++ map dir woken)
signal-Shows dir s c lock val r w (k, e, m, others, pr) =
    signal_waiters dir s c lock val w k (k.waiters car_level) e refl others pr r m

-- `for(i=0;i<n;i++) t_sig(cond,val,lock);`
abbrev pub t_sigs : ℕ → Ptr → ℕ → Ptr → M (Unit {0})
t_sigs zero c val lock = pure tt
t_sigs (suc n) c val lock = t_sig c val lock >> t_sigs n c val lock

sig_returns-IsWf :
    (s s' : Sys) (c lock : Ptr) (val : ℕ) → IsWf s → t_sig c val lock s ≡ returns tt s' → IsWf s'
sig_returns-IsWf s s' c lock val w e = subst (Keeps IsWf) e (t_sig-IsWf c val lock s w)

-- Any number of signals, as `Depart` sends them, in a state whose counters are right: each of the calls
-- returns, the cars that `broadcast` takes out of the waiting ones are those that are no longer
-- waiters of the condition, and those that it wakes stand, in this order, at the end of the level of
-- the cars.
pub broadcast-Shows :
    (n : ℕ) (dir : Ptr → Dir) (s : Sys) (c lock : Ptr) (val : ℕ) (r : Road)
    → IsWf s
    → Shows dir s c r.waiting
    → (s' : Sys) × (woken : List Ptr) × (t_sigs n c val lock s ≡ returns tt s')
      × Shows dir s' c (broadcast n r).waiting
      × (s'.p_queue car_level ≡ s.p_queue car_level ++ woken)
      × ((broadcast n r).woken ≡ r.woken ++ map dir woken)
unfolding broadcast
broadcast-Shows zero dir s c lock val r w h =
    (s, [], refl, h, sym (append-nil (s.p_queue car_level)), sym (append-nil r.woken))
broadcast-Shows (suc n) dir s c lock val r w h =
    let (s1, ts, runs, h1, q1, k1) = signal-Shows dir s c lock val r w h in
    let (s2, us, runs2, h2, q2, k2) =
      broadcast-Shows n dir s1 c lock val (signal r) (sig_returns-IsWf s s1 c lock val w runs) h1 in
    (
      s2,
      ts ++ us,
      rw runs runs2,
      h2,
      q2 ∙ rw q1 (append_assoc (s.p_queue car_level) ts us),
      k2
          ∙ rw k1 (
              append_assoc r.woken (map dir ts) (map dir us)
              ∙ ap {B = List Dir} (λ l. r.woken ++ l) (sym (map-append dir ts us))),
    )
