-- ===== src/Sched/Queue.antt =====
pub mod Order
pub mod Events
pub mod Remove
-- Thread queues: kernel/sched/rr-shared.c, kernel/sched/fifo.c and kernel/sched/edf.c. A queue is the
-- list of the threads that its `next` pointers chain, in order.
use etaos.Prelude.{
  ℕ, ◌+◌, ◌*◌, ◌/◌, ◌%◌, Bool, true, false, not, Option, none, some, List, [], ◌∷◌, if◌then◌else◌,
  ◌==◌, ltb, leb,
}
use etaos.Sched.Thread.{Thread, Threads, Root, modify, effective_prio}

-- `qhead`: SIGNALED, or the first thread of a chain (NULL for none).
pub data Head : Type 0 where
  signaled : Head
  chain : List ℕ → Head

pub data Status : Type 0 where
  ok einval : Status

abbrev pub prio_of : Threads → ℕ → ℕ
prio_of th t = effective_prio (th t)

-- The walk of an insertion. The new thread goes behind those that `stays` holds of, up to the first
-- that it does not hold of.
unfoldable pub place : (ℕ → Bool) → ℕ → List ℕ → List ℕ
place stays tp [] = tp ∷ []
place stays tp (x ∷ xs) = if stays x then x ∷ place stays tp xs else tp ∷ x ∷ xs

-- The thread before which the walk stops, the new thread's `next`.
unfoldable pub successor : (ℕ → Bool) → List ℕ → Option ℕ
successor stays [] = none
successor stays (x ∷ xs) = if stays x then successor stays xs else some x

-- The end of an insertion: the new thread takes over the events of the one behind it.
unfoldable pub inherit : ℕ → Option ℕ → Threads → Threads
inherit tp none th = th
inherit tp (some n) th =
    if (th n).ec == 0
    then th
    else let th' = modify tp (λ t. record t { ec = (t.ec + (th n).ec) % 256 }) th in
      modify n (λ t. record t { ec = 0 }) th'

-- The part that the three insertions share.
unfoldable pub queue_insert : Root → (ℕ → Bool) → ℕ → Head → Threads → Head × Threads
unfolding place successor inherit
queue_insert root stays tp signaled th =
    (chain (tp ∷ []), modify tp (λ t. record t { ec = 1; queue = some root }) th)
queue_insert root stays tp (chain xs) th = (
  chain (place stays tp xs),
  inherit tp (successor stays xs) (modify tp (λ t. record t { ec = 0; queue = some root }) th),
)

-- `rr_shared_queue_insert`: behind every thread of the same or a more urgent priority.
unfoldable pub rr_insert : Root → ℕ → Head → Threads → Head × Threads
unfolding queue_insert
rr_insert root tp head th = queue_insert root (λ x. leb (prio_of th x) (prio_of th tp)) tp head th

-- `fifo_queue_insert`: behind every thread.
unfoldable pub fifo_insert : Root → ℕ → Head → Threads → Head × Threads
unfolding queue_insert
fifo_insert root tp head th = queue_insert root (λ x. true) tp head th

-- `edf_calc_ratio`
unfoldable pub edf_calc_ratio : ℕ → ℕ
edf_calc_ratio p = 13 * p / 24 + 10

-- The deadline that `raw_edf_insert` gives: `now` is the clock's tick.
unfoldable pub edf_deadline : ℕ → Thread → ℕ
unfolding edf_calc_ratio
edf_deadline now t =
    let d = now + edf_calc_ratio (effective_prio t) in if t.idle then d + 15778463000000 else d

-- `raw_edf_insert`: behind every thread with an earlier deadline.
unfoldable pub edf_insert : ℕ → Root → ℕ → Head → Threads → Head × Threads
unfolding queue_insert edf_deadline
edf_insert now root tp head th =
    let d = edf_deadline now (th tp) in
    let th' = modify tp (λ t. record t { deadline = d }) th in
    queue_insert root (λ x. not (leb d (th' x).deadline)) tp head th'

abbrev pub first : List ℕ → Option ℕ
first [] = none
first (x ∷ xs) = some x

-- The walk of `rr_shared_queue_remove`: the list without the thread, and the one behind it.
unfoldable pub take_out : ℕ → List ℕ → Option (List ℕ × Option ℕ)
take_out tp [] = none
take_out tp (x ∷ xs) =
    let rest = take_out tp xs in
    if x == tp
    then some (xs, first xs)
    else elim rest [ none ↦ none | some (ys, n) ↦ some (x ∷ ys, n) ]

-- The events of a thread that leaves go to the one behind it.
unfoldable pub bequeath : ℕ → Option ℕ → Threads → Threads
bequeath tp none th = modify tp (λ t. record t { ec = 0 }) th
bequeath tp (some n) th =
    if (th tp).ec == 0
    then th
    else let th' = modify n (λ t. record t { ec = (th tp).ec }) th in
      modify tp (λ t. record t { ec = 0 }) th'

-- `rr_shared_queue_remove`
unfoldable pub queue_remove : ℕ → Head → Threads → Status × Head × Threads
unfolding take_out bequeath
queue_remove tp signaled th = (einval, signaled, th)
queue_remove tp (chain xs) th = elim (take_out tp xs) [
  | none ↦ (einval, chain xs, th)
  | some (ys, n) ↦ (ok, chain ys, modify tp (λ t. record t { queue = none }) (bequeath tp n th))
]

-- `fifo_next_runnable`, `rr_next_runnable` and `edf_next_runnable` are one loop.
unfoldable pub next_runnable : Threads → List ℕ → Option ℕ
next_runnable th [] = none
next_runnable th (x ∷ xs) = if (th x).running then some x else next_runnable th xs
