-- ===== src/Drivers.antt =====
-- drivers: the cores that the device drivers share. The hardware below them is a parameter, as the
-- source reaches it through the function pointers of a chip or a bus. Here are the error codes of
-- include/etaos/error.h.
pub mod Gpio
pub mod Dht11
pub mod I2c
pub mod Eeprom
pub mod Device
mod Tests
use etaos.Prelude.{ℕ, zero, suc, Bool, true, false}

-- What an `int` function answers: a number that is not negative, or a negated error code.
pub data Rc : Type 0 where
  value error : ℕ → Rc

abbrev pub eok : Rc
eok = value 0

abbrev pub enomem : Rc
enomem = error 1

abbrev pub enotinitialised : Rc
enotinitialised = error 3

abbrev pub einval : Rc
einval = error 4

abbrev pub eagain : Rc
eagain = error 5

-- `!err`
abbrev pub succeeded : Rc → Bool
succeeded (value zero) = true
succeeded (value (suc n)) = false
succeeded (error e) = false
