-- ===== src/Time/Process.antt =====
-- The walk of `timer_process`: it ends, it fires what has expired, and it can miss a timer.
use etaos.Prelude.{
  ℕ, zero, suc, ◌+◌, ◌-◌, ◌≤◌, ◌<◌, ◌≡◌, refl, sym, ap, ◌∙◌, take, Bool, false, inl, inr, true,
  some, List, [], ◌∷◌, ◌++◌, All, if◌then◌else◌, ◌==◌, leb, length, arith, Bool-cases,
}
use etaos.Time.{
  Timer, insert_index, insert_at, insert_timer, is_expired, put_back, process_from, timer_process,
}
use etaos.Time.Order.{Sorted}

module _ {ℓ} {A : Type ℓ} where
  -- How many timers have expired.
  abbrev expired_count : ℕ → List (Timer A) → ℕ
  expired_count now [] = 0
  expired_count now (t ∷ ts) = (if leb t.expire_at now then 1 else 0) + expired_count now ts

  expired_count-le : (now : ℕ) (ts : List (Timer A)) → expired_count now ts ≤ length ts
  expired_count-le now [] = omega arith
  expired_count-le now (t ∷ ts) = ground (arith, expired_count-le now ts)

  -- A timer that has not expired can be put anywhere.
  expired_count-insert :
      (now i : ℕ) (n : Timer A) (ts : List (Timer A))
      → now < n.expire_at
      → expired_count now (insert_at i n ts) ≡ expired_count now ts
  unfolding insert_at
  expired_count-insert now zero n ts h = ground arith
  expired_count-insert now (suc i) n [] h = ground arith
  expired_count-insert now (suc i) n (t ∷ ts) h = omega (arith, expired_count-insert now i n ts h)

  expired_count-put_back :
      (now : ℕ) (n : Timer A) (kept todo : List (Timer A))
      → now < n.expire_at
      → expired_count now (put_back n kept todo).1 ≡ expired_count now todo
  unfolding put_back
  expired_count-put_back now n kept todo h = ground (
    arith,
    expired_count-insert now (insert_index n.expire_at (kept ++ todo) - length kept) n todo h,
  )

  -- The timers that have expired, in the list's order.
  abbrev pub due_of : ℕ → List (Timer A) → List (Timer A)
  due_of now [] = []
  due_of now (t ∷ ts) = if leb t.expire_at now then t ∷ due_of now ts else due_of now ts

  due_of-insert :
      (now i : ℕ) (n : Timer A) (ts : List (Timer A))
      → now < n.expire_at
      → due_of now (insert_at i n ts) ≡ due_of now ts
  unfolding insert_at
  due_of-insert now zero n ts h =
      let late : leb n.expire_at now ≡ false = ground (arith, h) in
      ap (λ b. if b then n ∷ due_of now ts else due_of now ts) late
  due_of-insert now (suc i) n [] h =
      let late : leb n.expire_at now ≡ false = ground (arith, h) in
      ap (λ b. if b then n ∷ [] else []) late
  due_of-insert now (suc i) n (t ∷ ts) h =
      ap (λ xs. if leb t.expire_at now then t ∷ xs else xs) (due_of-insert now i n ts h)

  due_of-put_back :
      (now : ℕ) (n : Timer A) (kept todo : List (Timer A))
      → now < n.expire_at
      → due_of now (put_back n kept todo).1 ≡ due_of now todo
  unfolding put_back
  due_of-put_back now n kept todo h =
      let i = insert_index n.expire_at (kept ++ todo) in
      let pick = λ (b : Bool).
        due_of now
          (if◌then◌else◌ {A = List (Timer A) × List (Timer A)} b (insert_at i n kept, todo)
            (kept, insert_at (i - length kept) n todo)).1 in
      elim (Bool-cases (leb i (length kept))) [
        | inl e ↦ ap pick e
        | inr e ↦ ap pick e ∙ due_of-insert now (i - length kept) n todo h
      ]

  -- The timers that have not expired.
  unfoldable pub live_of : ℕ → List (Timer A) → List (Timer A)
  live_of now [] = []
  live_of now (t ∷ ts) = if leb t.expire_at now then live_of now ts else t ∷ live_of now ts

  module _ {κ} {S : Type κ} (handle : Timer A → S → S) where
    -- The handles of some timers, one after the other.
    abbrev pub handle_all : List (Timer A) → S → S
    handle_all [] s = s
    handle_all (t ∷ ts) s = handle_all ts (handle t s)

    process_from-total :
        (fuel now : ℕ) (kept todo : List (Timer A)) (s : S)
        → expired_count now todo < fuel
        → (r : List (Timer A) × S) × (n : ℕ) × (process_from handle fuel now kept todo s ≡ some r)
          × (r.1 ≡ handle_all (take n (due_of now todo)) s)
    unfolding process_from is_expired
    process_from-total zero now kept todo s h = absurd (omega arith)
    process_from-total (suc fuel) now kept [] s h = ((kept, s), 0, refl, refl)
    process_from-total (suc fuel) now kept (t ∷ ts) s h = elim (Bool-cases (leb t.expire_at now)) [
      | inr live ↦ ((kept ++ (t ∷ ts), s), 0, rw (live, process_from) refl, refl)
      | inl due ↦ elim (Bool-cases (t.interval == 0)) [
        | inl once ↦
            let (r, n, e, f) = process_from-total fuel now kept ts (handle t s) (ground arith) in
            (r, suc n, rw (due, process_from) (rw (once, process_from) e), first t ts n s r.1 due f)
        | inr again ↦
            let n : Timer A = record t { expire_at = t.interval + now } in
            let next = put_back n kept ts in
            let (r, m, e, f) =
              process_from-total fuel now next.0 next.1 (handle t s)
                (ground (arith, expired_count-put_back now n kept ts)) in
            let same = due_of-put_back now n kept ts (ground arith) in
            (
              r,
              suc m,
              rw (due, process_from) (rw (again, process_from) e),
              first t ts m s r.1 due (f ∙ ap (λ xs. handle_all (take m xs) (handle t s)) same),
            )
      ]
    ]
      where
        first :
            (t : Timer A) (ts : List (Timer A)) (n : ℕ) (s x : S)
            → leb t.expire_at now ≡ true
            → x ≡ handle_all (take n (due_of now ts)) (handle t s)
            → x ≡ handle_all (take (suc n) (due_of now (t ∷ ts))) s
        first t ts n s x due e =
            e
            ∙ sym (
                ap
                  (λ b.
                    handle_all (take (suc n) (if b then t ∷ due_of now ts else due_of now ts)) s)
                  due)

    -- `timer_process` ends, whatever the list, and each timer fires at most once in a walk: what
    -- the walk does to the state is what the handles of the first `n` of the list's expired timers
    -- do, for some `n`, one after the other.
    pub timer_process-total :
        (now : ℕ) (ts : List (Timer A)) (s : S)
        → (r : List (Timer A) × S) × (n : ℕ) × (timer_process handle now ts s ≡ some r)
          × (r.1 ≡ handle_all (take n (due_of now ts)) s)
    unfolding timer_process
    timer_process-total now ts s =
        process_from-total (suc (length ts)) now [] ts s (omega (arith, expired_count-le now ts))

    -- The specification for timers that fire once: those that have expired fire, in the list's order.
    unfoldable pub fired : ℕ → List (Timer A) → S → S
    fired now [] s = s
    fired now (t ∷ ts) s = fired now ts (if leb t.expire_at now then handle t s else s)

    abbrev pub IsLive : ℕ → List (Timer A) → Type 0
    IsLive now = All λ t. now < t.expire_at

    fired-live : (now : ℕ) (ts : List (Timer A)) (s : S) → IsLive now ts → fired now ts s ≡ s
    unfolding fired
    fired-live now [] s h = refl
    fired-live now (t ∷ ts) s h = ground (arith, fired-live now ts s h.1)

    IsLive-behind :
        (now k : ℕ) (ts : List (Timer A)) → now < k → All (λ u. k ≤ u.expire_at) ts → IsLive now ts
    IsLive-behind now k [] h a = tt
    IsLive-behind now k (t ∷ ts) h a = (omega arith, IsLive-behind now k ts h a.1)

    live_of-live : (now : ℕ) (ts : List (Timer A)) → IsLive now ts → live_of now ts ≡ ts
    unfolding live_of
    live_of-live now [] h = refl
    live_of-live now (t ∷ ts) h = ground (arith, live_of-live now ts h.1)

    process_from-once :
        (fuel now : ℕ) (ts : List (Timer A)) (s : S)
        → length ts < fuel
        → Sorted ts
        → All (λ t. t.interval ≡ 0) ts
        → process_from handle fuel now [] ts s ≡ some (live_of now ts, fired now ts s)
    unfolding process_from is_expired fired live_of
    process_from-once zero now ts s h o i = absurd (omega arith)
    process_from-once (suc fuel) now [] s h o i = refl
    process_from-once (suc fuel) now (t ∷ ts) s h o i = elim (Bool-cases (leb t.expire_at now)) [
      | inl due ↦
          let once : (t.interval == 0) ≡ true = ground arith in
          rw (due, process_from)
            (rw (once, process_from)
              (process_from-once fuel now ts (handle t s) (omega arith) o.1 i.1))
      | inr live ↦
          let behind = IsLive-behind now t.expire_at ts (ground arith) o.0 in
          rw (live, process_from) (rw (live_of-live now ts behind, fired-live now ts s behind) refl)
    ]

    -- Of a sorted list of timers that fire once, exactly those that have expired fire, in the order
    -- of their expiry, and exactly the others stay.
    pub timer_process-once :
        (now : ℕ) (ts : List (Timer A)) (s : S)
        → Sorted ts
        → All (λ t. t.interval ≡ 0) ts
        → timer_process handle now ts s ≡ some (live_of now ts, fired now ts s)
    unfolding timer_process
    timer_process-once now ts s o i = process_from-once (suc (length ts)) now ts s (omega arith) o i

    -- A periodic timer alone in its list fires once and is put back, one interval after the tick.
    pub timer_process-periodic :
        (now : ℕ) (t : Timer A) (s : S)
        → t.expire_at ≤ now
        → 0 < t.interval
        → timer_process handle now (t ∷ []) s
          ≡ some (record t { expire_at = t.interval + now } ∷ [], handle t s)
    unfolding timer_process process_from is_expired put_back insert_index insert_at
    timer_process-periodic now t s h p = ground arith

    -- A timer that is added before the only timer of a list goes behind it, and does not fire when
    -- it has expired, as long as the other has not.
    pub timer_process_late :
        (now : ℕ) (n t : Timer A) (s : S)
        → n.expire_at ≤ now
        → now < t.expire_at
        → timer_process handle now (insert_timer n (t ∷ [])) s ≡ some (t ∷ n ∷ [], s)
    unfolding timer_process process_from is_expired insert_timer insert_index insert_at
    timer_process_late now n t s h p = ground arith
