-- ===== src/Drivers/I2c/Retries.antt =====
-- How often a transfer is tried again.
use etaos.Prelude.{
  ℕ, zero, suc, ◌+◌, ◌≤◌, ◌<◌, ◌≡◌, ap, ◌∙◌, false, List, if◌then◌else◌, ltb, length, arith,
}
use etaos.Drivers.{Rc, eok, eagain}
use etaos.Drivers.I2c.{
  I2cMsg, I2cBus, is_eagain, or_length, transfer_from, i2c_transfer, i2c_bus_xfer,
}

module _ {H : Type 0} (bus : I2cBus H) where
  -- The messages and the state that so many tries leave, one after the other.
  abbrev pub tried : ℕ → List I2cMsg × H → List I2cMsg × H
  tried zero s = s
  tried (suc n) s = tried n ((bus.xfer s.0 s.1).1, (bus.xfer s.0 s.1).2)

  -- Of so many tries that are left, the first ones answer -EAGAIN, and in time.
  abbrev pub Busy : (ℕ → ℕ) → ℕ → ℕ → ℕ → List I2cMsg × H → Type 0
  Busy clock ref left zero s = Unit
  Busy clock ref zero (suc n) s = ⊥
  Busy clock ref (suc left) (suc n) s =
      ((bus.xfer s.0 s.1).0 ≡ eagain)
      × (clock left ≤ ref + bus.timeout)
      × Busy clock ref left n ((bus.xfer s.0 s.1).1, (bus.xfer s.0 s.1).2)

  try_again :
      (clock : ℕ → ℕ) (ref left : ℕ) (ret : Rc) (msgs : List I2cMsg) (h : H)
      → (bus.xfer msgs h).0 ≡ eagain
      → clock left ≤ ref + bus.timeout
      → let r = bus.xfer msgs h in
        transfer_from bus clock ref (suc left) ret msgs h
        ≡ transfer_from bus clock ref left r.0 r.1 r.2
  unfolding transfer_from
  try_again clock ref left ret msgs h e le =
      let r = bus.xfer msgs h in
      let again = transfer_from bus clock ref left r.0 r.1 r.2 in
      let late : ltb (ref + bus.timeout) (clock left) ≡ false = ground (arith, le) in
      ap
        (λ c.
          if is_eagain c then (if ltb (ref + bus.timeout) (clock left) then r else again) else r)
        e
      ∙ ap (λ b. if b then r else again) late

  try_done :
      (clock : ℕ → ℕ) (ref left : ℕ) (ret : Rc) (msgs : List I2cMsg) (h : H)
      → is_eagain (bus.xfer msgs h).0 ≡ false
      → transfer_from bus clock ref (suc left) ret msgs h ≡ bus.xfer msgs h
  unfolding transfer_from
  try_done clock ref left ret msgs h e =
      let r = bus.xfer msgs h in
      let again = transfer_from bus clock ref left r.0 r.1 r.2 in
      ap (λ b. if b then (if ltb (ref + bus.timeout) (clock left) then r else again) else r) e

  Busy-then :
      (clock : ℕ → ℕ) (ref left n : ℕ) (ret : Rc) (msgs : List I2cMsg) (h : H)
      → n < left
      → Busy clock ref left n (msgs, h)
      → let s = tried n (msgs, h) in
        is_eagain (bus.xfer s.0 s.1).0 ≡ false
        → transfer_from bus clock ref left ret msgs h ≡ bus.xfer s.0 s.1
  Busy-then clock ref zero n ret msgs h lt b e = absurd (omega arith)
  Busy-then clock ref (suc left) zero ret msgs h lt b e = try_done clock ref left ret msgs h e
  Busy-then clock ref (suc left) (suc n) ret msgs h lt b e =
      let r = bus.xfer msgs h in
      try_again clock ref left ret msgs h b.0 b.1
      ∙ Busy-then clock ref left n r.0 r.1 r.2 (omega arith) b.2 e

  -- While a bus answers -EAGAIN in time, a transfer is tried again, and the first other answer within
  -- the number of tries is that of `i2c_bus_xfer`, with -EOK as the number of messages.
  pub i2c_bus_xfer-Busy :
      (clock : ℕ → ℕ) (ref n : ℕ) (msgs : List I2cMsg) (h : H)
      → n < bus.retries
      → Busy clock ref bus.retries n (msgs, h)
      → let s = tried n (msgs, h) in
        let r = bus.xfer s.0 s.1 in
        is_eagain r.0 ≡ false
        → i2c_bus_xfer bus clock ref msgs h ≡ (or_length (length msgs) r.0, r.1, r.2)
  unfolding i2c_bus_xfer i2c_transfer
  i2c_bus_xfer-Busy clock ref n msgs h lt b e =
      ap (λ (r : Rc × List I2cMsg × H). (or_length (length msgs) r.0, r.1, r.2))
        (Busy-then clock ref bus.retries n eok msgs h lt b e)
