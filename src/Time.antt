-- ===== src/Time.antt =====
-- kernel/time/timer.c, kernel/time/hrtimer.c and the timer list of kernel/time/clocksource.c. A timer
-- list is the list of the timers that a clock source's list chains, in order. `hrtimer_create` is left
-- out: it divides in floating point.
pub mod Order
pub mod Process
mod Tests
use etaos.Prelude.{
  ℕ, zero, suc, ◌+◌, ◌-◌, ◌*◌, ◌/◌, ◌%◌, Bool, true, false, Option, none, some, List, [], ◌∷◌, ◌++◌,
  if◌then◌else◌, ◌==◌, ltb, leb, length,
}

-- `struct timer`; `struct hrtimer` has the same fields. `call` is the handle with its argument.
-- `interval` is an `unsigned int` of 16 bits, 0 for a timer that fires once.
pub record Timer {ℓ} (A : Type ℓ) : Type ℓ where
  pub id : ℕ
  pub expire_at : ℕ
  pub interval : ℕ
  pub call : A

module _ {ℓ} {A : Type ℓ} where
  -- The place that `raw_clocksource_insert_timer` finds, as an index. The comparison is not made with
  -- the last timer of the list.
  unfoldable pub insert_index : ℕ → List (Timer A) → ℕ
  insert_index e [] = 0
  insert_index e (t ∷ []) = 1
  insert_index e (t ∷ u ∷ ts) =
      let rest = insert_index e (u ∷ ts) in if leb e t.expire_at then 0 else suc rest

  unfoldable pub insert_at : ℕ → Timer A → List (Timer A) → List (Timer A)
  insert_at zero n ts = n ∷ ts
  insert_at (suc i) n [] = n ∷ []
  insert_at (suc i) n (t ∷ ts) = t ∷ insert_at i n ts

  -- `raw_clocksource_insert_timer` with `timer_list_comparator`.
  unfoldable pub insert_timer : Timer A → List (Timer A) → List (Timer A)
  unfolding insert_index insert_at
  insert_timer n ts = insert_at (insert_index n.expire_at ts) n ts

  -- `timer_create`: `freq` and `tick` are the clock source's.
  unfoldable pub timer_create : ℕ → ℕ → ℕ → ℕ → A → Bool → List (Timer A) → Timer A × List (Timer A)
  unfolding insert_timer
  timer_create freq tick id ms call oneshot ts =
      let expire = freq / 1000 * ms in
      let t : Timer A = record {
        id = id;
        expire_at = expire + tick;
        interval = if oneshot then 0 else expire % 65536;
        call = call;
      } in
      (t, insert_timer t ts)

  -- `timer_stop` and `hrtimer_stop`: the timer leaves its list.
  unfoldable pub timer_stop : ℕ → List (Timer A) → List (Timer A)
  timer_stop id [] = []
  timer_stop id (t ∷ ts) = let rest = timer_stop id ts in if t.id == id then ts else t ∷ rest

  unfoldable pub is_expired : ℕ → Timer A → Bool
  is_expired now t = leb t.expire_at now

  -- The timers before the walk's position, and those from there on, after a timer is put back.
  unfoldable pub put_back :
      Timer A → List (Timer A) → List (Timer A) → List (Timer A) × List (Timer A)
  unfolding insert_index insert_at
  put_back n kept todo =
      let i = insert_index n.expire_at (kept ++ todo) in
      if leb i (length kept)
      then (insert_at i n kept, todo)
      else (kept, insert_at (i - length kept) n todo)

  -- The walk of `timer_process` and `hrtimer_handle` at the tick `now`. The next position is read
  -- before a timer fires, so that timers put back before it are passed over. A handle acts on `S`, and
  -- starts or stops no timer of this clock. `none` means that the fuel ran out.
  module _ {κ} {S : Type κ} (handle : Timer A → S → S) where
    unfoldable pub process_from :
        ℕ → ℕ → List (Timer A) → List (Timer A) → S → Option (List (Timer A) × S)
    unfolding is_expired put_back
    process_from zero now kept todo s = none
    process_from (suc fuel) now kept [] s = some (kept, s)
    process_from (suc fuel) now kept (t ∷ ts) s = elim (is_expired now t) [
      | false ↦ some (kept ++ (t ∷ ts), s)
      | true ↦
          let s' = handle t s in
          elim (t.interval == 0) [
            | true ↦ process_from fuel now kept ts s'
            | false ↦
                let again = record t { expire_at = t.interval + now } in
                let next = put_back again kept ts in process_from fuel now next.0 next.1 s'
          ]
    ]

    -- A walk fires each timer at most once, and stops at one that it has put back.
    unfoldable pub timer_process : ℕ → List (Timer A) → S → Option (List (Timer A) × S)
    unfolding process_from
    timer_process now ts s = process_from (suc (length ts)) now [] ts s
