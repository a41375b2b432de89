-- ===== src/Drivers/Eeprom.antt =====
-- drivers/eeprom/eeprom.c and 24c02.c: an EEPROM with pages of eight bytes on an I2C bus. The index of the
-- device's file stays below 256.
pub mod Pages
pub mod Contents
use etaos.Prelude.{
  ℕ, zero, suc, ◌+◌, ◌*◌, ◌/◌, ◌%◌, Bool, true, false, List, [], ◌∷◌, if◌then◌else◌, ◌==◌, length,
  take, drop, leb,
}
use etaos.Drivers.{Rc, value, error, eok, enomem}
use etaos.Drivers.I2c.{I2cMsg, I2cBus, i2c_bus_xfer, i2c_master_send}

abbrev pub page_size : ℕ
page_size = 8

-- `rc == 2` as -EOK.
abbrev pub or_eok : Rc → Rc
or_eok (value n) = if n == 2 then eok else value n
or_eok (error e) = error e

-- What a read message of the pair holds.
abbrev pub received : List I2cMsg → List ℕ
received [] = []
received (_ ∷ []) = []
received (_ ∷ rx ∷ _) = rx.buff

-- The two messages of a read from the client `addr`.
abbrev pub read_pair : ℕ → ℕ → List ℕ → List I2cMsg
read_pair addr at buf =
    record { dest_addr = addr; is_read = false; buff = at ∷ [] }
    ∷ record { dest_addr = addr; is_read = true; buff = buf }
    ∷ []

-- A client on its bus, with the time of each transfer, and what the wait of `dev_sync_lock` for EE_SYNC
-- milliseconds does to the state.
module _ {H : Type 0} (bus : I2cBus H) (clock : ℕ → ℕ) (ref addr : ℕ) (sync : H → H) where
  -- A page, or a part of one, that is sent; the answer is not used.
  unfoldable pub send_page : ℕ → List ℕ → H → H
  unfolding i2c_master_send
  send_page at buf h = (i2c_master_send bus clock ref addr (at % 256 ∷ buf) h).1

  -- The loop of `__ee_24c02_write` over the full pages that are left, from page `idx` on, and the rest.
  unfoldable pub send_pages : ℕ → ℕ → ℕ → ℕ → List ℕ → H → H
  unfolding send_page
  send_pages zero idx eeprom_index index buf h =
      let left_over = length buf % page_size in
      let sent = send_page (index + eeprom_index) (take left_over (drop (page_size * idx) buf)) h in
      if left_over == 0 then h else sent
  send_pages (suc full_pages) idx eeprom_index index buf h =
      send_pages full_pages (idx + 1) ((eeprom_index + page_size) % 256) index buf
        (send_page (index + eeprom_index) (take page_size (drop (page_size * idx) buf)) h)

  -- `__ee_24c02_write` at the index; `memory` is whether the page's buffer is allocated.
  unfoldable pub ee_24c02_write : Bool → ℕ → List ℕ → H → Rc × H
  unfolding send_pages
  ee_24c02_write memory index buf h =
      let full_pages = if leb page_size (length buf) then length buf / page_size else 0 in
      if memory then (eok, send_pages full_pages 0 0 index buf (sync h)) else (enomem, h)

  -- `__ee_24c02_read` at the index into a buffer: the answer, the bytes and the state.
  unfoldable pub ee_24c02_read : Bool → ℕ → List ℕ → H → Rc × List ℕ × H
  unfolding i2c_bus_xfer
  ee_24c02_read memory index buf h =
      let r = i2c_bus_xfer bus clock ref (read_pair addr (index % 256) buf) (sync h) in
      if memory then (or_eok r.0, received r.1, r.2) else (enomem, buf, h)

  -- `eeprom_24c02_write_byte`
  unfoldable pub eeprom_24c02_write_byte : ℕ → ℕ → H → Rc × H
  unfolding i2c_master_send
  eeprom_24c02_write_byte at byte h =
      let r = i2c_master_send bus clock ref addr (at % 256 ∷ byte % 256 ∷ []) (sync h) in
      (or_eok r.0, r.1)

  -- `eeprom_write` and `eeprom_read` of the device's file, whose index moves on whatever the answer.
  unfoldable pub eeprom_write : Bool → ℕ → List ℕ → H → Rc × ℕ × H
  unfolding ee_24c02_write
  eeprom_write memory index buf h =
      let r = ee_24c02_write memory index buf h in (r.0, index + length buf, r.1)

  unfoldable pub eeprom_read : Bool → ℕ → List ℕ → H → Rc × List ℕ × ℕ × H
  unfolding ee_24c02_read
  eeprom_read memory index buf h =
      let r = ee_24c02_read memory index buf h in (r.0, r.1, index + length buf, r.2)
