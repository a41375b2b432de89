-- ===== src/Sync/Ipm.antt =====
-- kernel/sched/ipm.c: the queue of messages between threads, as a list of messages.
use etaos.Prelude.{
  ℕ, ◌%◌, zero, suc, ◌+◌, ◌-◌, ◌≤◌, ◌<◌, ◌≡◌, refl, sym, ap, subst, ◌∙◌, ◌↔◌, Bool, true, false,
  List, [], ◌∷◌, ◌++◌, if◌then◌else◌, ◌==◌, leb, arith,
}
use etaos.Sched.Queue.{Head, signaled, chain, Status, ok, einval}
use etaos.Sched.Kernel.{Kernel, Config}
use etaos.Event.{event_notify, Wait, returned, waiting, raw_event_wait, set_queue}

-- `struct ipm_queue`; `queue` is its thread queue, and `msgs` the array by index.
pub record IpmQueue {ℓ} (A : Type ℓ) : Type ℓ where
  pub msgs : ℕ → A
  pub num : ℕ
  pub wr_idx : ℕ
  pub rd_idx : ℕ
  pub queue : ℕ

-- What `ipm_get_msg` comes to before the thread gives up the CPU: a message, the error, or a wait.
pub data Got {ℓ} (A : Type ℓ) : Type ℓ where
  got : A → Got A
  no_msg wait_msg : Got A

module _ {ℓ} {A : Type ℓ} where
  -- `ipm_queue_is_full`
  unfoldable pub ipm_queue_is_full : IpmQueue A → Bool
  ipm_queue_is_full q = leb q.num q.wr_idx

  -- `ipm_queue_init`, where the array is allocated; `num` is a byte.
  unfoldable pub ipm_queue_init : ℕ → ℕ → (ℕ → A) → Kernel → IpmQueue A × Kernel
  ipm_queue_init id len zeroed k = (
    record { msgs = zeroed; num = len % 256; wr_idx = 0; rd_idx = 0; queue = id },
    set_queue id (chain []) k,
  )

  -- `ipm_post_msg`
  unfoldable pub ipm_post_msg : Config → A → IpmQueue A → Kernel → Status × IpmQueue A × Kernel
  unfolding ipm_queue_is_full event_notify
  ipm_post_msg c msg q k = if ipm_queue_is_full q then (einval, q, k) else (
    ok,
    record q { msgs = λ i. if i == q.wr_idx then msg else q.msgs i; wr_idx = q.wr_idx + 1 },
    event_notify c false q.queue k,
  )

  -- The end of `ipm_get_msg`: a message is there, and others may be behind it.
  unfoldable pub take_msg : Config → IpmQueue A → Kernel → Got A × IpmQueue A × Kernel
  unfolding event_notify
  take_msg c q k = (
    got (q.msgs q.rd_idx),
    record q { rd_idx = q.rd_idx + 1 },
    if q.rd_idx + 1 == q.wr_idx then k else event_notify c false q.queue k,
  )

  -- `ipm_get_msg` after its wait.
  unfoldable pub get_rest : Config → IpmQueue A → Kernel → Got A × IpmQueue A × Kernel
  unfolding take_msg
  get_rest c q k = if q.wr_idx == q.rd_idx then (no_msg, q, k) else take_msg c q k

  abbrev pub after_wait :
      Config
      → IpmQueue A
      → Wait × Kernel
      → Got A × IpmQueue A × Kernel
      → Got A × IpmQueue A × Kernel
  after_wait c q (waiting, k) rest = (wait_msg, q, k)
  after_wait c q (returned, k) rest = rest

  -- `ipm_get_msg`
  unfoldable pub ipm_get_msg : Config → IpmQueue A → Kernel → Got A × IpmQueue A × Kernel
  unfolding take_msg get_rest raw_event_wait
  ipm_get_msg c q k =
      let r = raw_event_wait c q.queue 0 k in
      if leb q.wr_idx q.rd_idx then after_wait c q r (get_rest c q r.1) else take_msg c q k

  -- `ipm_reset_queue`
  abbrev reset_head : IpmQueue A → Kernel → Head → Bool × IpmQueue A × Kernel
  reset_head q k signaled =
      (true, record q { wr_idx = 0; rd_idx = 0 }, set_queue q.queue (chain []) k)
  reset_head q k (chain []) =
      (true, record q { wr_idx = 0; rd_idx = 0 }, set_queue q.queue (chain []) k)
  reset_head q k (chain (x ∷ xs)) = (false, q, k)

  unfoldable pub ipm_reset_queue : IpmQueue A → Kernel → Bool × IpmQueue A × Kernel
  ipm_reset_queue q k = reset_head q k (k.queues q.queue)

  -- The messages of an array from an index on.
  unfoldable pub range : (ℕ → A) → ℕ → ℕ → List A
  range msgs i zero = []
  range msgs i (suc n) = msgs i ∷ range msgs (i + 1) n

  -- The messages that are posted and not taken yet, in order.
  abbrev pub contents : IpmQueue A → List A
  contents q = range q.msgs q.rd_idx (q.wr_idx - q.rd_idx)

  abbrev pub IsValid : IpmQueue A → Type 0
  IsValid q = (q.rd_idx ≤ q.wr_idx) × (q.wr_idx ≤ q.num)

  range-update :
      (msgs : ℕ → A) (w i n : ℕ) (m : A)
      → i + n ≡ w
      → range (λ j. if j == w then m else msgs j) i (n + 1) ≡ range msgs i n ++ (m ∷ [])
  unfolding range
  range-update msgs w i zero m e =
      let here : (i == w) ≡ true = ground arith in ap (λ b. (if b then m else msgs i) ∷ []) here
  range-update msgs w i (suc n) m e =
      let before : (i == w) ≡ false = ground arith in
      let more : suc n + 1 ≡ suc (n + 1) = omega arith in
      rw more (
        ap
          (λ b.
            (if b then m else msgs i) ∷ range (λ j. if j == w then m else msgs j) (i + 1) (n + 1))
          before
        ∙ ap (◌∷◌ (msgs i)) (range-update msgs w (i + 1) n m (omega arith)))

  -- `ipm_post_msg` on a valid queue appends its message and notifies, as long as fewer than `num`
  -- were posted since the last reset.
  pub ipm_post_msg_lem :
      (c : Config) (m : A) (q : IpmQueue A) (k : Kernel)
      → IsValid q
      → q.wr_idx < q.num
      → let r = ipm_post_msg c m q k in
        (r.0 ≡ ok)
        × (contents r.1 ≡ contents q ++ (m ∷ []))
        × IsValid r.1
        × (r.2 ≡ event_notify c false q.queue k)
  unfolding ipm_post_msg ipm_queue_is_full
  ipm_post_msg_lem c m q k v h =
      let room : ipm_queue_is_full q ≡ false = ground arith in
      let q' = record q {
        msgs = λ i. if i == q.wr_idx then m else q.msgs i;
        wr_idx = q.wr_idx + 1;
      } in
      let posted : Bool → Status × IpmQueue A × Kernel =
        λ b. if b then (einval, q, k) else (ok, q', event_notify c false q.queue k) in
      let more : q.wr_idx + 1 - q.rd_idx ≡ q.wr_idx - q.rd_idx + 1 = omega arith in
      let added = range-update q.msgs q.wr_idx q.rd_idx (q.wr_idx - q.rd_idx) m (omega arith) in
      subst Posted (sym (ap posted room))
        (refl, ap (range q'.msgs q.rd_idx) more ∙ added, (omega arith, omega arith), refl)
    where
      Posted : Status × IpmQueue A × Kernel → Type ℓ
      Posted r =
          (r.0 ≡ ok)
          × (contents r.1 ≡ contents q ++ (m ∷ []))
          × IsValid r.1
          × (r.2 ≡ event_notify c false q.queue k)

  -- `ipm_post_msg` fails exactly if `num` messages have been posted since the last reset, also when
  -- all of them have been taken.
  pub ipm_post_msg_full :
      (c : Config) (m : A) (q : IpmQueue A) (k : Kernel)
      → ((ipm_post_msg c m q k).0 ≡ einval) ↔ (q.num ≤ q.wr_idx)
  unfolding ipm_post_msg ipm_queue_is_full
  ipm_post_msg_full c m q k = (λ e. ground arith, λ h. ground arith)

  range_cons :
      (msgs : ℕ → A) (i n : ℕ) (m : A) (ms : List A)
      → range msgs i n ≡ m ∷ ms
      → (p : ℕ) × (n ≡ p + 1) × (msgs i ≡ m) × (range msgs (i + 1) p ≡ ms)
  unfolding range
  range_cons msgs i zero m ms e = absurd (no_cons e)
    where
      no_cons : ◌≡◌ {A = List A} [] (m ∷ ms) → ⊥
      no_cons h = ground arith
  range_cons msgs i (suc n) m ms e = (n, omega arith, ap (head m) e, ap tail e)
    where
      head : A → List A → A
      head d [] = d
      head d (x ∷ xs) = x

      tail : List A → List A
      tail [] = []
      tail (x ∷ xs) = xs

  -- `ipm_get_msg` on a valid queue that holds messages takes the first of them, and the others stay
  -- in order.
  pub ipm_get_msg_lem :
      (c : Config) (m : A) (ms : List A) (q : IpmQueue A) (k : Kernel)
      → IsValid q
      → contents q ≡ m ∷ ms
      → let r = ipm_get_msg c q k in (r.0 ≡ got m) × (contents r.1 ≡ ms) × IsValid r.1
  unfolding ipm_get_msg take_msg
  ipm_get_msg_lem c m ms q k v e =
      let (p, n, here, rest) = range_cons q.msgs q.rd_idx (q.wr_idx - q.rd_idx) m ms e in
      let some_left : leb q.wr_idx q.rd_idx ≡ false = ground arith in
      let r = raw_event_wait c q.queue 0 k in
      let out : Bool → Got A × IpmQueue A × Kernel =
        λ b. if b then after_wait c q r (get_rest c q r.1) else take_msg c q k in
      let left : q.wr_idx - (q.rd_idx + 1) ≡ p = omega arith in
      subst Taken (sym (ap out some_left))
        (ap got here, ap (range q.msgs (q.rd_idx + 1)) left ∙ rest, (omega arith, v.1))
    where
      Taken : Got A × IpmQueue A × Kernel → Type ℓ
      Taken r = (r.0 ≡ got m) × (contents r.1 ≡ ms) × IsValid r.1
