-- ===== src/System/State.antt =====
-- THREADS.H and the global variables of THREAD.C, and how a library call can end.
-- Each `Queue` of threads is the list of its objects, oldest first: what QUEUE.C implements.
-- Pointers are numbers, 0 is NULL. A number that overflows an `int` is not modelled.
use user_level_thread_librar.Base.{
  ℕ, Bool, true, false, Option, none, some, List, [], ◌∷◌, ◌++◌, ℤ, ◌==◌, if◌then◌else◌, update,
  index, ltb, ◌≡◌, refl, ◌+◌,
}

abbrev pub Ptr : Type 0
Ptr = ℕ

abbrev pub null : Ptr
null = 0

-- Sizes of the arrays of THREAD.C and THREADS.H.
abbrev pub levels : ℕ
levels = 128

abbrev pub max_waiting : ℕ
max_waiting = 50

abbrev pub max_exited : ℕ
max_exited = 50

abbrev pub max_conditions : ℕ
max_conditions = 50

abbrev pub max_semaphores : ℕ
max_semaphores = 20

abbrev pub max_thread_name : ℕ
max_thread_name = 30

-- `jmp_buf context`: the call of `setjmp` that a thread left from, which is where it goes on.
pub data Context : Type 0 where
  unset in_join in_timer in_yield in_wait in_p : Context
  -- the `t_yield` inside `t_fork`, with the new thread's identifier
  in_fork : (tid : ℕ) → Context

-- `struct tcb`; the field `sig` is never used.
pub record Tcb : Type 0 where
  pub name : List ℕ
  pub context : Context
  pub func : ℕ
  pub arg : ℕ
  pub priority : ℤ
  pub flag : ℕ
  pub tid : ℕ
  pub waiting_for_tid : ℕ

-- `struct Lock_t`
pub record Lock : Type 0 where
  pub shared : ℕ

-- `struct Condition_t`
pub record Condition : Type 0 where
  pub cond_id : ℕ
  pub waiters : ℕ → List Ptr
  pub lock : Ptr

-- `struct Semaphore_t`
pub record Semaphore : Type 0 where
  pub value : ℤ
  pub sem_id : ℕ
  pub waiters : List Ptr

-- `struct itimerval timer`, in microseconds
pub record Interval : Type 0 where
  pub it_value : ℕ
  pub it_interval : ℕ

-- The variables of THREAD.C and the memory that its pointers lead to.
pub record Sys : Type 0 where
  pub p_queue : ℕ → List Ptr
  pub thread_level_count : ℕ → ℕ
  pub tcbs : Ptr → Tcb
  pub current : Ptr
  pub tcb_waiting : ℕ → Ptr
  pub waiting_index : ℕ
  pub exited_thread_ids : ℕ → ℕ
  pub exit_thread_index : ℕ
  pub g_thread_id : ℕ
  pub semaphore_id : ℕ
  pub condition_id : ℕ
  pub condition_record : ℕ → Ptr
  pub condition_waiters : ℕ → ℕ → ℕ
  pub semaphore_waiters : ℕ → ℕ
  pub first_run : ℕ
  pub thread_count : ℕ
  pub conditions : Ptr → Option Condition
  pub semaphores : Ptr → Option Semaphore
  pub locks : Ptr → Option Lock
  -- `blocksigs` holds SIGVTALRM
  pub alarm_in_blocksigs : Bool
  -- SIGVTALRM is blocked by the process's signal mask
  pub alarm_blocked : Bool
  pub timer : Interval

-- Where a `longjmp` of the library leads.
pub data Target : Type 0 where
  sched_context sit_bottom_context : Target

-- How a call ends: it returns to its caller, it leaves by `longjmp`, it turns in the loop of
-- `lock_acquire` on a lock, it calls `exit`, or its behaviour is undefined.
pub data Outcome (A : Type 0) : Type 0 where
  returns : A → Sys → Outcome A
  jumps : Target → Sys → Outcome A
  spins : Ptr → Sys → Outcome A
  exits : Outcome A
  faults : Outcome A

abbrev pub M : Type 0 → Type 0
M A = Sys → Outcome A

abbrev pub bind : {A B : Type 0} → Outcome A → (A → M B) → Outcome B
bind (returns a s) k = k a s
bind (jumps t s) k = jumps t s
bind (spins l s) k = spins l s
bind exits k = exits
bind faults k = faults

infixl 5 ◌>>=◌ ◌>>◌
abbrev pub ◌>>=◌ : {A B : Type 0} → M A → (A → M B) → M B
m >>= k = λ s. bind (m s) k

abbrev pub ◌>>◌ : {A B : Type 0} → M A → M B → M B
m >> n = m >>= λ _. n

abbrev pub pure : {A : Type 0} → A → M A
pure a s = returns a s

abbrev pub gets : {A : Type 0} → (Sys → A) → M A
gets f s = returns (f s) s

abbrev pub modify : (Sys → Sys) → M (Unit {0})
modify f s = returns tt (f s)

abbrev pub longjmp : {A : Type 0} → Target → M A
longjmp t s = jumps t s

abbrev pub undefined : {A : Type 0} → M A
undefined s = faults

abbrev pub or_fault : {A : Type 0} → Option A → M A
or_fault none s = faults
or_fault (some a) s = returns a s

abbrev pub assert : Bool → M (Unit {0})
assert true s = returns tt s
assert false s = faults

-- The two ways on from a search.
abbrev pub on_found : {A B : Type 0} → Option A → M B → (A → M B) → M B
on_found none m f = m
on_found (some a) m f = f a

abbrev pub at : {A : Type 0} → (Ptr → Option A) → Ptr → Option A
at m p = if p == null then none else m p

-- An access through a pointer: NULL and freed memory are undefined.
abbrev pub deref : {A : Type 0} → (Sys → Ptr → Option A) → Ptr → M A
deref field p s = or_fault (at (field s) p) s

-- `a[i]` is within an array of `size` elements.
abbrev pub in_bounds : ℕ → ℕ → M (Unit {0})
in_bounds size i = assert (ltb i size)

-- The same for an `int` index.
abbrev pub indexed : ℕ → ℤ → M ℕ
indexed size z = or_fault (index size z)

-- An assignment to the TCB at `t`.
abbrev pub set_tcb : Ptr → (Tcb → Tcb) → Sys → Sys
set_tcb t f s = record s { tcbs = update s.tcbs t (f (s.tcbs t)) }

-- `setjmp(currentRunningThread->context)`, on the way that returns 0
abbrev pub save_context : Context → M (Unit {0})
save_context c = modify (λ s. set_tcb s.current (λ t. record t { context = c }) s)

-- `q_insert(pQueue[p], t); threadLevelCount[p]++;`, where `malloc` gives `q_insert` memory for the cell.
unfoldable pub put_ready : ℤ → Ptr → M (Unit {0})
put_ready priority t = do
  p ← indexed levels priority
  modify (λ s. record s {
    p_queue = update s.p_queue p (s.p_queue p ++ t ∷ []);
    thread_level_count = update s.thread_level_count p (s.thread_level_count p + 1);
  })

-- `q_remove` of an empty queue reads through NULL.
abbrev pub q_remove : List Ptr → M (Ptr × List Ptr)
q_remove [] s = faults
q_remove (t ∷ rest) s = returns (t, rest) s

-- `q_is_empty`
abbrev pub q_is_empty : List Ptr → Bool
q_is_empty [] = true
q_is_empty (t ∷ rest) = false

-- A test that is known to pass.
pub if-true :
    {A : Type 0} (b : Bool) (m n : M A) (s : Sys) → b ≡ true → (if b then m else n) s ≡ m s
if-true true m n s e = refl
if-true false m n s e = cc
