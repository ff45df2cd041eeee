-- ===== src/Serial/Line.antt =====
-- The loops that wait for the line, and the handler that does not wait.
use Prim.Native.Nat.{bit_and}
use yo_rha.Base.{ℕ, zero, suc, ◌<◌, ◌≡◌, ◌≢◌, refl, arith, true, false, List, ◌∷◌, ◌==◌}
use yo_rha.Base.Outcome.{ok}
use yo_rha.Port.{Ports}
use yo_rha.Serial.{
  com1, is_transmit_empty, serial_received, write_serial, read_serial, serial_handler_write,
}

module _ {D : Type 0} (ports : Ports D) where
  -- The device after `n` questions for the state of the line, and its answer to the next one.
  abbrev pub asked : ℕ → D → D
  asked zero d = d
  asked (suc n) d = asked n (ports.inb d 0x3fd).1

  abbrev pub line : ℕ → D → ℕ
  line n d = (ports.inb (asked n d) 0x3fd).0

  -- The bits of `mask` are clear in `n` answers, and one is set in the next one.
  pub record IsSetAfter (mask n : ℕ) (d : D) : Type 0 where
    pub clear : (k : ℕ) → k < n → bit_and (line k d) mask ≡ 0
    pub raised : bit_and (line n d) mask ≢ 0

  -- `write_serial` returns if the line is found empty after fewer questions than the fuel: it has asked
  -- until then, and has sent the character.
  pub write_serial_lem :
      (fuel n : ℕ) (d : D) (a : ℕ)
      → n < fuel
      → IsSetAfter 0x20 n d
      → write_serial ports fuel d a ≡ ok (ports.write_byte (asked (suc n) d) com1 a)
  unfolding write_serial is_transmit_empty
  write_serial_lem zero n d a lt r = absurd (omega arith)
  write_serial_lem (suc fuel) zero d a lt r =
      let test : (bit_and (line 0 d) 0x20 == 0) ≡ false = ground (arith, r.raised) in rw test (refl)
  write_serial_lem (suc fuel) (suc n) d a lt r =
      let first = r.clear 0 (omega arith) in
      let test : (bit_and (line 0 d) 0x20 == 0) ≡ true = ground (arith, first) in
      rw test (
        write_serial_lem fuel n (ports.inb d 0x3fd).1 a (omega arith)
          (record { clear = λ k lt. r.clear (suc k) (omega arith); raised = r.raised }))

  -- A character is read once one has come, if the fuel lasts that long.
  pub read_serial_lem :
      (fuel n : ℕ) (d : D)
      → n < fuel
      → IsSetAfter 1 n d
      → read_serial ports fuel d ≡ ok (ports.inb (asked (suc n) d) com1)
  unfolding read_serial serial_received
  read_serial_lem zero n d lt r = absurd (omega arith)
  read_serial_lem (suc fuel) zero d lt r =
      let test : (bit_and (line 0 d) 1 == 0) ≡ false = ground (arith, r.raised) in rw test (refl)
  read_serial_lem (suc fuel) (suc n) d lt r =
      let first = r.clear 0 (omega arith) in
      let test : (bit_and (line 0 d) 1 == 0) ≡ true = ground (arith, first) in
      rw test (
        read_serial_lem fuel n (ports.inb d 0x3fd).1 (omega arith)
          (record { clear = λ k lt. r.clear (suc k) (omega arith); raised = r.raised }))

-- A line that is ready takes the first byte of the buffer.
pub serial_handler_write_lem :
    {D : Type 0} (ports : Ports D) (d : D) (c : ℕ) (cs : List ℕ)
    → bit_and (ports.inb d 0x3fd).0 0x20 ≢ 0
    → serial_handler_write ports d (c ∷ cs) ≡ ok (1, ports.write_byte (ports.inb d 0x3fd).1 com1 c)
unfolding serial_handler_write is_transmit_empty
serial_handler_write_lem ports d c cs ready =
    let test : (bit_and (ports.inb d 0x3fd).0 0x20 == 0) ≡ false = ground (arith, ready) in
    rw test (refl)
