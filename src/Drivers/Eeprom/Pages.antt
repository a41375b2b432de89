-- ===== src/Drivers/Eeprom/Pages.antt =====
-- What the driver of the EEPROM writes is what it reads.
use etaos.Prelude.{Bool, ℕ, ◌+◌, ◌%◌, ◌≤◌, ◌<◌, ◌≡◌, true, false, List, [], ◌∷◌, length}
use etaos.Drivers.{eok, einval}
use etaos.Drivers.I2c.{I2cMsg, I2cBus}
use etaos.Drivers.Eeprom.{received, read_pair}
use etaos.Drivers.Eeprom.Contents.{overlay, bytes_from}

module _ {H : Type 0} (bus : I2cBus H) (addr : ℕ) where
  abbrev pub write_msg : List ℕ → List I2cMsg
  write_msg buf = record { dest_addr = addr; is_read = false; buff = buf } ∷ []

  -- What an EEPROM with pages of eight bytes does: when it is ready, it takes bytes that stay in one page, and
  -- answers a read. It is busy behind a write, and refuses every message until it has been waited for.
  pub record Eeprom (sync : H → H) (ready : H → Bool) (content : H → ℕ → ℕ) : Type 0 where
    pub tries : 0 < bus.retries
    pub synced : (h : H) → ready (sync h) ≡ true
    pub kept : (h : H) → content (sync h) ≡ content h
    pub write_ok :
        (a : ℕ) (ds : List ℕ) (h : H)
        → a < 256
        → a % 8 + length ds ≤ 8
        → ready h ≡ true
        → (bus.xfer (write_msg (a ∷ ds)) h).0 ≡ eok
    pub written :
        (a : ℕ) (ds : List ℕ) (h : H)
        → a < 256
        → a % 8 + length ds ≤ 8
        → ready h ≡ true
        → content (bus.xfer (write_msg (a ∷ ds)) h).2 ≡ overlay a ds (content h)
    pub busy : (buf : List ℕ) (h : H) → ready (bus.xfer (write_msg buf) h).2 ≡ false
    pub refused :
        (buf : List ℕ) (h : H)
        → ready h ≡ false
        → ((bus.xfer (write_msg buf) h).0 ≡ einval)
          × (content (bus.xfer (write_msg buf) h).2 ≡ content h)
    pub read_ok :
        (a : ℕ) (buf : List ℕ) (h : H)
        → a + length buf ≤ 256
        → ready h ≡ true
        → (bus.xfer (read_pair addr a buf) h).0 ≡ eok
    pub bytes_read :
        (a : ℕ) (buf : List ℕ) (h : H)
        → a + length buf ≤ 256
        → ready h ≡ true
        → received (bus.xfer (read_pair addr a buf) h).1 ≡ bytes_from a (length buf) (content h)
