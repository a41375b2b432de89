-- ===== src/Sync/Mutex.antt =====
-- kernel/sched/mutex.c: the recursive mutex, and that one thread at most holds it.
use etaos.Prelude.{
  ℕ, zero, suc, ◌+◌, ◌-◌, ◌%◌, ◌<◌, ◌≡◌, ◌≢◌, refl, sym, ap, subst, ◌∙◌, inl, inr, Bool, true,
  false, Option, none, some, some_inj, [], if◌then◌else◌, ◌==◌, ◌||◌, arith, Bool-cases, ℕ_discrete,
}
use etaos.Sched.Queue.{Head, signaled, chain}
use etaos.Sched.Kernel.{Kernel, Config}
use etaos.Event.{
  event_notify, Wait, returned, waiting, raw_event_wait, event_wait, forget, set_queue,
}
use etaos.Event.Waiting.{wait_blocks, wait_signaled}

-- `mutex_t`; `queue` is its thread queue. The count is an `int` of 16 bits, and here its bit pattern.
pub record Mutex : Type 0 where
  pub owner : Option ℕ
  pub count : ℕ
  pub queue : ℕ

abbrev pub is_owner : ℕ → Mutex → Bool
is_owner t m = elim m.owner [ none ↦ false | some o ↦ o == t ]

-- The condition of `mutex_lock`'s wait, negated, and its end.
unfoldable pub try_lock : ℕ → Mutex → Option Mutex
try_lock t m =
    if is_owner t m || (m.count == 0)
    then some (record m { count = (m.count + 1) % 65536; owner = some t })
    else none

-- `mutex_unlock` without its notification. `none` is the panic.
unfoldable pub try_unlock : ℕ → Mutex → Option Mutex
try_unlock t m =
    if is_owner t m
    then some (
        if m.count == 1
        then record m { count = 0; owner = none }
        else record m { count = (m.count + 65535) % 65536 })
    else none

-- What `mutex_lock` comes to before the thread gives up the CPU.
pub data Locking : Type 0 where
  acquired blocked : Locking

-- One turn of the loop of `mutex_lock`: the mutex is free, or the thread waits, or the wait returns at
-- once and the loop goes round again.
abbrev pub lock_turn :
    Mutex
    → Kernel
    → Wait × Kernel
    → Option (Locking × Mutex × Kernel)
    → Option Mutex
    → Option (Locking × Mutex × Kernel)
lock_turn m k r again (some m') = some (acquired, m', k)
lock_turn m k (waiting, k') again none = some (blocked, m, k')
lock_turn m k (returned, k') again none = again

unfoldable pub lock_loop : Config → ℕ → Mutex → Kernel → Option (Locking × Mutex × Kernel)
unfolding try_lock raw_event_wait
lock_loop c zero m k = none
lock_loop c (suc fuel) m k =
    let r = raw_event_wait c m.queue 0 k in
    lock_turn m k r (lock_loop c fuel m r.1) (try_lock k.current m)

-- `mutex_lock`. A mark SIGNALED makes one wait return at once, and the next one waits.
unfoldable pub mutex_lock : Config → Mutex → Kernel → Option (Locking × Mutex × Kernel)
unfolding lock_loop
mutex_lock c m k = lock_loop c 2 m k

-- `mutex_unlock`, which notifies the queue once the mutex is free.
unfoldable pub unlock_end : Config → ℕ → Kernel → Option Mutex → Option (Mutex × Kernel)
unfolding event_notify
unlock_end c q k none = none
unlock_end c q k (some m) = some (m, if m.count == 0 then event_notify c false q k else k)

unfoldable pub mutex_unlock : Config → Mutex → Kernel → Option (Mutex × Kernel)
unfolding try_unlock unlock_end
mutex_unlock c m k = unlock_end c m.queue k (try_unlock k.current m)

-- How often each thread has locked the mutex and not unlocked it yet.
abbrev pub Holds : Type 0
Holds = ℕ → ℕ

-- A lock that succeeds, and that the count has room for, or an unlock.
pub data Step : Mutex → Holds → Mutex → Holds → Type 0 where
  locked :
      (t : ℕ) (m m' : Mutex) (h : Holds)
      → m.count < 32767
      → try_lock t m ≡ some m'
      → Step m h m' (λ u. if u == t then h u + 1 else h u)
  unlocked :
      (t : ℕ) (m m' : Mutex) (h : Holds)
      → try_unlock t m ≡ some m'
      → Step m h m' (λ u. if u == t then h u - 1 else h u)

pub data Reaches (m₀ : Mutex) (h₀ : Holds) : Mutex → Holds → Type 0 where
  start : Reaches m₀ h₀ m₀ h₀
  then_step :
      (m m' : Mutex) (h h' : Holds) → Reaches m₀ h₀ m h → Step m h m' h' → Reaches m₀ h₀ m' h'

-- The owner holds the mutex as often as it counts, which is no negative `int`, and no other thread
-- holds it.
abbrev pub HeldBy : Option ℕ → ℕ → Holds → Type 0
HeldBy none n h = (n ≡ 0) × ((t : ℕ) → h t ≡ 0)
HeldBy (some o) n h = (0 < n) × (n < 32768) × (h o ≡ n) × ((t : ℕ) → t ≢ o → h t ≡ 0)

lock-HeldBy :
    (t n : ℕ) (o : Option ℕ) (h : Holds)
    → (elim o [ none ↦ false | some x ↦ x == t ]) || (n == 0) ≡ true
    → n < 32767
    → HeldBy o n h
    → HeldBy (some t) ((n + 1) % 65536) (λ u. if u == t then h u + 1 else h u)
lock-HeldBy t n none h e lt (z, a) =
    (omega arith, omega arith, ground (arith, a t), λ u ne. ground (arith, a u))
lock-HeldBy t n (some o) h e lt (p, r, q, a) =
    let eq : o ≡ t = ground arith in
    (omega arith, omega arith, ground (arith, ap h eq), λ u ne. ground (arith, a u))

unlock-HeldBy :
    (t n : ℕ) (h : Holds)
    → HeldBy (some t) n h
    → ((n ≡ 1) → HeldBy none 0 (λ u. if u == t then h u - 1 else h u))
      × ((n ≢ 1) → HeldBy (some t) ((n + 65535) % 65536) (λ u. if u == t then h u - 1 else h u))
unlock-HeldBy t n h (p, r, q, a) = (
  λ e. (
    refl,
    λ u. elim (Bool-cases (u == t)) [
      | inl s ↦ ground (arith, ap h (the_same u s))
      | inr s ↦ ground (arith, a u)
    ],
  ),
  λ e. (omega arith, omega arith, ground arith, λ u ne. ground (arith, a u)),
)
  where
    the_same : (u : ℕ) → (u == t) ≡ true → u ≡ t
    the_same u s = ground arith

try_lock-some :
    (t : ℕ) (m m' : Mutex)
    → try_lock t m ≡ some m'
    → (is_owner t m || (m.count == 0) ≡ true)
      × (m' ≡ record m { count = (m.count + 1) % 65536; owner = some t })
unfolding try_lock
try_lock-some t m m' e = elim (Bool-cases (is_owner t m || (m.count == 0))) [
  | inl c ↦ (c, sym (some_inj _ m' (rw (c, try_lock) at e)))
  | inr c ↦ absurd (none_some m' (rw (c, try_lock) at e))
]
  where
    none_some : (x : Mutex) → ◌≡◌ {A = Option Mutex} none (some x) → ⊥
    none_some x h = ground arith

abbrev unlocked_once : Mutex → Mutex
unlocked_once m =
    if m.count == 1
    then record m { count = 0; owner = none }
    else record m { count = (m.count + 65535) % 65536 }

try_unlock-some :
    (t : ℕ) (m m' : Mutex) → try_unlock t m ≡ some m' → (m.owner ≡ some t) × (m' ≡ unlocked_once m)
unfolding try_unlock
try_unlock-some t m m' e = elim (Bool-cases (is_owner t m)) [
  | inl c ↦ (owned m.owner c, sym (some_inj _ m' (rw (c, try_unlock) at e)))
  | inr c ↦ absurd (none_some m' (rw (c, try_unlock) at e))
]
  where
    owned : (o : Option ℕ) → (elim o [ none ↦ false | some x ↦ x == t ]) ≡ true → o ≡ some t
    owned none h = ground arith
    owned (some x) h = ground arith

    none_some : (x : Mutex) → ◌≡◌ {A = Option Mutex} none (some x) → ⊥
    none_some x h = ground arith

Step-HeldBy :
    (m m' : Mutex) (h h' : Holds)
    → Step m h m' h'
    → HeldBy m.owner m.count h
    → HeldBy m'.owner m'.count h'
Step-HeldBy _ _ h _ (locked t m m' _ lt e) v =
    let (c, eq) = try_lock-some t m m' e in
    subst (λ x. HeldBy x.owner x.count (λ u. if u == t then h u + 1 else h u)) (sym eq)
      (lock-HeldBy t m.count m.owner h c lt v)
Step-HeldBy _ _ h _ (unlocked t m m' _ e) v =
    let (own, eq) = try_unlock-some t m m' e in
    let (last, inner) = unlock-HeldBy t m.count h (subst (λ o. HeldBy o m.count h) own v) in
    subst Held (sym eq) (elim (ℕ_discrete m.count 1) [
      | yes one ↦
          let c : (m.count == 1) ≡ true = ground arith in subst Held (sym (ap pick c)) (last one)
      | no more ↦
          let c : (m.count == 1) ≡ false = ground arith in
          subst Held (sym (ap pick c)) (
            subst (λ o. HeldBy o ((m.count + 65535) % 65536) (λ u. if u == t then h u - 1 else h u))
              (sym own) (inner more))
    ])
  where
    Held : Mutex → Type 0
    Held x = HeldBy x.owner x.count (λ u. if u == t then h u - 1 else h u)

    pick : Bool → Mutex
    pick b =
        if b
        then record m { count = 0; owner = none }
        else record m { count = (m.count + 65535) % 65536 }

-- However threads lock and unlock a mutex that was free, where no lock comes upon a count of 32767,
-- the largest `int`, its owner holds it as often as it counts, that count is a positive `int`, and
-- no other thread holds it.
pub Reaches-HeldBy :
    (m₀ m : Mutex) (h : Holds)
    → m₀.owner ≡ none
    → m₀.count ≡ 0
    → Reaches m₀ (λ _. 0) m h
    → HeldBy m.owner m.count h
Reaches-HeldBy m₀ _ _ o n start = subst (λ x. HeldBy x m₀.count (λ _. 0)) (sym o) (n, λ t. refl)
Reaches-HeldBy m₀ _ _ o n (then_step m m' h h' r s) =
    Step-HeldBy m m' h h' s (Reaches-HeldBy m₀ m h o n r)

lock_loop_blocks :
    (c : Config) (fuel : ℕ) (m : Mutex) (k k' : Kernel)
    → try_lock k.current m ≡ none
    → raw_event_wait c m.queue 0 k ≡ (waiting, k')
    → lock_loop c (suc fuel) m k ≡ some (blocked, m, k')
unfolding lock_loop
lock_loop_blocks c fuel m k k' e w =
    let r = raw_event_wait c m.queue 0 k in
    ap (lock_turn m k r (lock_loop c fuel m r.1)) e
    ∙ ap (λ (s : Wait × Kernel). lock_turn m k s (lock_loop c fuel m s.1) none) w

lock_loop_again :
    (c : Config) (fuel : ℕ) (m : Mutex) (k k' : Kernel)
    → try_lock k.current m ≡ none
    → raw_event_wait c m.queue 0 k ≡ (returned, k')
    → lock_loop c (suc fuel) m k ≡ lock_loop c fuel m k'
unfolding lock_loop
lock_loop_again c fuel m k k' e w =
    let r = raw_event_wait c m.queue 0 k in
    ap (lock_turn m k r (lock_loop c fuel m r.1)) e
    ∙ ap (λ (s : Wait × Kernel). lock_turn m k s (lock_loop c fuel m s.1) none) w

-- `mutex_lock` of a mutex that the current thread cannot take waits as `event_wait` does, whether
-- or not an earlier notification is left in the mutex's queue, and the mutex stays as it is.
pub mutex_lock-event_wait :
    (c : Config) (m : Mutex) (k : Kernel)
    → try_lock k.current m ≡ none
    → mutex_lock c m k ≡ some (blocked, m, (event_wait c m.queue 0 k).1)
unfolding mutex_lock event_wait
mutex_lock-event_wait c m k e = go (k.queues m.queue) refl
  where
    go :
        (h : Head)
        → k.queues m.queue ≡ h
        → mutex_lock c m k ≡ some (blocked, m, (event_wait c m.queue 0 k).1)
    go signaled s =
        let k' = set_queue m.queue (chain []) k in
        let empty : k'.queues m.queue ≡ chain [] = ground arith in
        let w = wait_blocks c m.queue 0 [] k' empty in
        let out = ap (λ h. (raw_event_wait c m.queue 0 (forget m.queue k h)).1) s in
        lock_loop_again c 1 m k k' e (wait_signaled c m.queue 0 k s)
        ∙ lock_loop_blocks c 0 m k' _ e w
        ∙ ap (λ x. some (blocked, m, x)) (ap (λ (r : Wait × Kernel). r.1) (sym w) ∙ sym out)
    go (chain xs) s =
        let w = wait_blocks c m.queue 0 xs k s in
        let out = ap (λ h. (raw_event_wait c m.queue 0 (forget m.queue k h)).1) s in
        lock_loop_blocks c 1 m k _ e w
        ∙ ap (λ x. some (blocked, m, x)) (ap (λ (r : Wait × Kernel). r.1) (sym w) ∙ sym out)

try_lock_own :
    (t : ℕ) (m : Mutex)
    → m.owner ≡ some t
    → try_lock t m ≡ some (record m { count = (m.count + 1) % 65536; owner = some t })
unfolding try_lock
try_lock_own t m o =
    let e : (is_owner t m || (m.count == 0)) ≡ true = rw o (ground arith) in rw (e, try_lock) refl

try_unlock_inner :
    (t : ℕ) (m : Mutex)
    → m.owner ≡ some t
    → 0 < m.count
    → m.count < 65535
    → try_unlock t (record m { count = (m.count + 1) % 65536; owner = some t }) ≡ some m
unfolding try_unlock
try_unlock_inner t m o p top =
    let back : ((m.count + 1) % 65536 + 65535) % 65536 ≡ m.count = omega arith in
    let held : (t == t) ≡ true = ground arith in
    let inner : ((m.count + 1) % 65536 == 1) ≡ false = ground arith in
    rw (held, try_unlock)
      (rw (inner, try_unlock)
        (ap (λ n. some (record m { count = n; owner = some t })) back
          ∙ ap (λ x. some (record m { owner = x })) (sym o)))

unlock_end_inner :
    (c : Config) (q : ℕ) (k : Kernel) (m : Mutex)
    → 0 < m.count
    → unlock_end c q k (some m) ≡ some (m, k)
unfolding unlock_end
unlock_end_inner c q k m p =
    let e : (m.count == 0) ≡ false = ground arith in
    ap (λ b. some (m, if b then event_notify c false q k else k)) e

-- Of a mutex that the current thread holds already, `mutex_unlock` undoes `mutex_lock`, and nobody
-- is notified. The count has room.
pub mutex_unlock-mutex_lock :
    (c : Config) (m : Mutex) (k : Kernel)
    → m.owner ≡ some k.current
    → 0 < m.count
    → m.count < 32767
    → (m' : Mutex) × (mutex_lock c m k ≡ some (acquired, m', k))
      × (mutex_unlock c m' k ≡ some (m, k))
unfolding mutex_unlock mutex_lock lock_loop
mutex_unlock-mutex_lock c m k o p top =
    let r = raw_event_wait c m.queue 0 k in
    (
      record m { count = (m.count + 1) % 65536; owner = some k.current },
      ap (lock_turn m k r (lock_loop c 1 m r.1)) (try_lock_own k.current m o),
      ap (unlock_end c m.queue k) (try_unlock_inner k.current m o p (omega arith))
          ∙ unlock_end_inner c m.queue k m p,
    )
