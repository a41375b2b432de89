-- ===== src/Drivers/I2c.antt =====
-- drivers/i2c/bus.c and client.c: the core of the I2C buses. What stands on the bus, which the code reaches
-- through the function `xfer` of the bus, acts on a state `H`.
pub mod Retries
use etaos.Prelude.{
  ℕ, zero, suc, ◌+◌, Bool, true, false, List, [], ◌∷◌, if◌then◌else◌, ◌==◌, ltb, length,
}
use etaos.Drivers.{Rc, value, error, eok, einval}

-- `struct i2c_msg`: the address, I2C_RD_FLAG and the bytes. A message that is read has the bytes that were
-- received; before the transfer they do not matter, but for their number.
pub record I2cMsg : Type 0 where
  pub dest_addr : ℕ
  pub is_read : Bool
  pub buff : List ℕ

-- `struct i2c_bus`; `xfer` also gives the messages as it leaves them.
pub record I2cBus (H : Type 0) : Type 0 where
  pub timeout : ℕ
  pub retries : ℕ
  pub xfer : List I2cMsg → H → Rc × List I2cMsg × H
  pub set_speed : ℕ → H → Rc × H

abbrev pub is_eagain : Rc → Bool
is_eagain (value n) = false
is_eagain (error e) = e == 5

-- `count` bytes if one message was transferred, and -EINVAL if not.
abbrev pub or_einval : ℕ → Rc → Rc
or_einval count (value n) = if n == 1 then value count else einval
or_einval count (error e) = einval

-- `(ret == -EOK) ? len : ret`
abbrev pub or_length : ℕ → Rc → Rc
or_length len (value zero) = value len
or_length len (value (suc n)) = value (suc n)
or_length len (error e) = error e

module _ {H : Type 0} (bus : I2cBus H) where
  -- The loop of `__i2c_transfer`, for so many tries that are left: `clock k` is `sys_tick` when `k` tries
  -- are left, and `ref` what it was before the first.
  unfoldable pub transfer_from : (ℕ → ℕ) → ℕ → ℕ → Rc → List I2cMsg → H → Rc × List I2cMsg × H
  transfer_from clock ref zero ret msgs h = (ret, msgs, h)
  transfer_from clock ref (suc left) ret msgs h =
      let r = bus.xfer msgs h in
      let again = transfer_from clock ref left r.0 r.1 r.2 in
      if is_eagain r.0 then (if ltb (ref + bus.timeout) (clock left) then r else again) else r

  unfoldable pub i2c_transfer : (ℕ → ℕ) → ℕ → List I2cMsg → H → Rc × List I2cMsg × H
  unfolding transfer_from
  i2c_transfer clock ref msgs h = transfer_from clock ref bus.retries eok msgs h

  -- `i2c_bus_xfer`, whose lock lets one transfer at a time onto the bus.
  unfoldable pub i2c_bus_xfer : (ℕ → ℕ) → ℕ → List I2cMsg → H → Rc × List I2cMsg × H
  unfolding i2c_transfer
  i2c_bus_xfer clock ref msgs h =
      let r = i2c_transfer clock ref msgs h in (or_length (length msgs) r.0, r.1, r.2)

  unfoldable pub i2c_set_bus_speed : ℕ → H → Rc × H
  i2c_set_bus_speed bps h = let r = bus.set_speed bps h in if bps == 0 then (einval, h) else r

  -- `i2c_master_send` and `i2c_master_recv` of a client with the address `addr`.
  unfoldable pub i2c_master_send : (ℕ → ℕ) → ℕ → ℕ → List ℕ → H → Rc × H
  unfolding i2c_bus_xfer
  i2c_master_send clock ref addr buf h =
      let r =
        i2c_bus_xfer clock ref (record { dest_addr = addr; is_read = false; buff = buf } ∷ []) h in
      (or_einval (length buf) r.0, r.2)

  unfoldable pub i2c_master_recv : (ℕ → ℕ) → ℕ → ℕ → List ℕ → H → Rc × List I2cMsg × H
  unfolding i2c_bus_xfer
  i2c_master_recv clock ref addr buf h =
      let r =
        i2c_bus_xfer clock ref (record { dest_addr = addr; is_read = true; buff = buf } ∷ []) h in
      (or_einval (length buf) r.0, r.1, r.2)
