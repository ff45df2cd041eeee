-- ===== src/Serial.antt =====
-- The serial port of src/serial.c and its handler in src/file_handlers.c, over a device behind the
-- ports. A loop that waits has fuel for the number of times that it asks.
pub mod Line
mod Tests
use Prim.Native.Nat.{bit_and}
use yo_rha.Base.{
  ℕ, zero, suc, Bool, true, false, not, List, [], ◌∷◌, ◌==◌, if◌then◌else◌, get_elem?,
}
use yo_rha.Base.Outcome.{Outcome, ok, diverges, ◌>>=◌, in_bounds}
use yo_rha.Base.Word.{u8}
use yo_rha.Port.{Ports}

abbrev pub com1 : ℕ
com1 = 0x3f8

module _ {D : Type 0} (ports : Ports D) where
  -- `false` is the result -1.
  pub init_serial : D → Bool × D
  init_serial d =
      let d1 = ports.write_byte d 0x3f9 0x01 in
      let d2 = ports.write_byte d1 0x3fb 0x80 in
      let d3 = ports.write_byte d2 0x3f8 0x01 in
      let d4 = ports.write_byte d3 0x3f9 0x00 in
      let d5 = ports.write_byte d4 0x3fb 0x00 in
      let d6 = ports.write_byte d5 0x3fa 0xc7 in
      let d7 = ports.write_byte d6 0x3fb 0x03 in
      let d8 = ports.write_byte d7 0x3fc 0x1e in
      let d9 = ports.write_byte d8 0x3f8 0xae in
      let echo = ports.inb d9 0x3f8 in
      if echo.0 == 0xae then (true, ports.write_byte echo.1 0x3fc 0x0f) else (false, echo.1)

  pub is_transmit_empty : D → Bool × D
  is_transmit_empty d = let line = ports.inb d 0x3fd in (not (bit_and line.0 0x20 == 0), line.1)

  pub serial_received : D → Bool × D
  serial_received d = let line = ports.inb d 0x3fd in (not (bit_and line.0 1 == 0), line.1)

  pub write_serial : ℕ → D → ℕ → Outcome D
  write_serial zero d a = diverges
  write_serial (suc fuel) d a =
      let line = is_transmit_empty d in
      let again = write_serial fuel line.1 a in
      if line.0 then ok (ports.write_byte line.1 com1 a) else again

  pub read_serial : ℕ → D → Outcome (ℕ × D)
  read_serial zero d = diverges
  read_serial (suc fuel) d =
      let line = serial_received d in
      let again = read_serial fuel line.1 in if line.0 then ok (ports.inb line.1 com1) else again

  -- `serial_handler(true, …)`: the bytes that are stored at the start of `buf`, and their number.
  pub serial_handler_read : D → List ℕ × ℕ × D
  serial_handler_read d =
      let line = serial_received d in
      if line.0 then (let c = ports.inb line.1 com1 in (c.0 ∷ [], 1, c.1)) else ([], 0, line.1)

  -- `serial_handler(false, …)`: the number of bytes that are sent, whatever `count` is.
  pub serial_handler_write : D → List ℕ → Outcome (ℕ × D)
  serial_handler_write d buf =
      let line = is_transmit_empty d in
      if line.0
      then (in_bounds (get_elem? buf 0) >>= λ c. ok (1, ports.write_byte line.1 com1 c))
      else ok (0, line.1)
