-- ===== src/Ata.antt =====
-- The disk driver of src/ata.c, over a device behind the ports. A loop that waits has fuel for the
-- number of times that it asks the device, and a buffer is the list of its bytes.
pub mod Wait
pub mod Read
pub mod Write
mod Tests
use Prim.Native.Nat.{bit_and, bit_or}
use yo_rha.Base.{
  ℕ, zero, suc, ◌+◌, ◌-◌, ◌*◌, ◌/◌, ◌%◌, ◌^◌, List, [], ◌∷◌, ◌++◌, Bool, not, ltb, ◌==◌,
  if◌then◌else◌, get_elem?, get_or,
}
use yo_rha.Base.Outcome.{Outcome, ok, diverges, ◌>>=◌, in_bounds}
use yo_rha.Base.Word.{u8, u16, u32, shr}
use yo_rha.Port.{Ports}

abbrev pub reg_data : ℕ
reg_data = 0x1f0

abbrev pub reg_status : ℕ
reg_status = 0x1f7

abbrev pub sr_busy : ℕ
sr_busy = 0x80

abbrev pub sr_data_request : ℕ
sr_data_request = 0x08

abbrev pub sectors_per_block : ℕ
sectors_per_block = 8

-- `(uint16_t)buffer[i + 1] << 8 | buffer[i]`
pub word_at : List ℕ → ℕ → Outcome ℕ
word_at buffer i = in_bounds (get_elem? buffer (i + 1)) >>= λ high.
    in_bounds (get_elem? buffer i) >>= λ low. ok (u16 (bit_or (high * 2 ^ 8) low))

module _ {D : Type 0} (ports : Ports D) where
  -- `while (inb(ATA_REG_STATUS) & ATA_SR_BSY);`
  pub ata_wait_ready : ℕ → D → Outcome D
  ata_wait_ready zero d = diverges
  ata_wait_ready (suc fuel) d =
      let asked = ports.inb d reg_status in
      let again = ata_wait_ready fuel asked.1 in
      if bit_and asked.0 sr_busy == 0 then ok asked.1 else again

  -- `while (!(inb(ATA_REG_STATUS) & ATA_SR_DRQ));`
  pub wait_data : ℕ → D → Outcome D
  wait_data zero d = diverges
  wait_data (suc fuel) d =
      let asked = ports.inb d reg_status in
      let again = wait_data fuel asked.1 in
      if bit_and asked.0 sr_data_request == 0 then again else ok asked.1

  pub ata_cache_flush : ℕ → D → Outcome D
  ata_cache_flush fuel d =
      ata_wait_ready fuel d >>= λ d1. ata_wait_ready fuel (ports.write_byte d1 0x1f7 0xe7)

  -- The registers and the command that start a transfer.
  pub send_command : D → ℕ → ℕ → ℕ → D
  send_command d lba sector_count command =
      let d1 = ports.write_byte d 0x1f6 (bit_or 0xe0 (bit_and (shr lba 24) 0x0f)) in
      let d2 = ports.write_byte d1 0x1f1 0x00 in
      let d3 = ports.write_byte d2 0x1f2 (u8 sector_count) in
      let d4 = ports.write_byte d3 0x1f3 (u8 (bit_and lba 0xff)) in
      let d5 = ports.write_byte d4 0x1f4 (u8 (bit_and (shr lba 8) 0xff)) in
      let d6 = ports.write_byte d5 0x1f5 (u8 (bit_and (shr lba 16) 0xff)) in
      ports.write_byte d6 0x1f7 command

  -- `rep_insw`: the bytes of `left` words, each the low one first.
  pub read_words : ℕ → D → List ℕ × D
  read_words zero d = ([], d)
  read_words (suc left) d =
      let word = ports.inw d reg_data in
      let rest = read_words left word.1 in
      (word.0 % 2 ^ 8 ∷ word.0 / 2 ^ 8 % 2 ^ 8 ∷ rest.0, rest.1)

  -- The loop over the sectors. The counter is a `uint8_t`: with more than 255 sectors the loop
  -- never ends, and `rounds` runs out.
  pub read_sectors : ℕ → ℕ → ℕ → ℕ → D → Outcome (List ℕ × D)
  read_sectors fuel zero sector sector_count d = diverges
  read_sectors fuel (suc rounds) sector sector_count d =
      let next = wait_data fuel d >>= λ d1.
      (let words = read_words 256 d1 in
        read_sectors fuel rounds (u8 (sector + 1)) sector_count words.1 >>= λ (rest : List ℕ × D).
        ok (words.0 ++ rest.0, rest.1)) in
      if ltb sector sector_count then next else ok ([], d)

  pub ata_read_sectors : ℕ → ℕ → D → ℕ → ℕ → Outcome (List ℕ × D)
  ata_read_sectors fuel rounds d lba sector_count = ata_wait_ready fuel d >>= λ d1.
      ata_wait_ready fuel (send_command d1 lba sector_count 0x20) >>= λ d2.
      read_sectors fuel rounds 0 sector_count d2

  -- The words of one sector, from byte `i` of the buffer on.
  pub write_words : ℕ → List ℕ → ℕ → D → Outcome D
  write_words zero buffer i d = ok d
  write_words (suc left) buffer i d = word_at buffer i >>= λ word.
      write_words left buffer (i + 2) (ports.write_word d reg_data word)

  pub write_sectors : ℕ → ℕ → ℕ → ℕ → List ℕ → D → Outcome D
  write_sectors fuel zero sector sector_count buffer d = diverges
  write_sectors fuel (suc rounds) sector sector_count buffer d =
      let next = wait_data fuel d >>= λ d1. write_words 256 buffer (sector * 512) d1 >>= λ d2.
      write_sectors fuel rounds (u8 (sector + 1)) sector_count buffer d2 in
      if ltb sector sector_count then next else ok d

  pub ata_write_sectors : ℕ → ℕ → D → ℕ → ℕ → List ℕ → Outcome D
  ata_write_sectors fuel rounds d lba sector_count buffer = ata_wait_ready fuel d >>= λ d1.
      write_sectors fuel rounds 0 sector_count buffer (send_command d1 lba sector_count 0x30)
      >>= λ d2. ata_cache_flush fuel d2

  pub ata_read_blocks : ℕ → ℕ → D → ℕ → ℕ → Outcome (List ℕ × D)
  ata_read_blocks fuel rounds d block_num count =
      ata_read_sectors fuel rounds d (u32 (block_num * sectors_per_block))
        (u32 (sectors_per_block * count))

  pub ata_write_blocks : ℕ → ℕ → D → ℕ → List ℕ → ℕ → Outcome D
  ata_write_blocks fuel rounds d block_num buffer count =
      ata_write_sectors fuel rounds d (u32 (block_num * sectors_per_block))
        (u32 (sectors_per_block * count)) buffer

  -- `ata_select_drive(1)` and the rest of `ata_identify`.
  pub ata_identify : D → D
  ata_identify d =
      let d1 = ports.write_byte d 0x1f6 0xa0 in
      let d2 = ports.write_byte d1 0x1f2 0 in
      let d3 = ports.write_byte d2 0x1f3 0 in
      let d4 = ports.write_byte d3 0x1f4 0 in
      let d5 = ports.write_byte d4 0x1f5 0 in ports.write_byte d5 0x1f7 0xec

  -- `ata_read_buffer`: the words themselves.
  pub ata_read_buffer : ℕ → D → List ℕ × D
  ata_read_buffer zero d = ([], d)
  ata_read_buffer (suc left) d =
      let word = ports.inw d reg_data in
      let rest = ata_read_buffer left word.1 in (word.0 ∷ rest.0, rest.1)

  -- `ata_wait` asks for the same bit as `ata_wait_ready`.
  pub ata_get_disk_size : ℕ → D → Outcome (ℕ × D)
  ata_get_disk_size fuel d = ata_wait_ready fuel (ata_identify d) >>= λ d1.
      (let words = ata_read_buffer 256 d1 in
        let total_sectors = bit_or (u32 (get_or words.0 61 0 * 2 ^ 16)) (get_or words.0 60 0) in
        ok (total_sectors * 512, words.1))
