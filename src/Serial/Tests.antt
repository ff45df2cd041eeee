-- ===== src/Serial/Tests.antt =====
-- A line that is ready for every second question.
use Prim.Native.Nat.{bit_and}
use yo_rha.Base.{◌≡◌, refl, ℕ, zero, suc, ◌<◌, arith, if◌then◌else◌, ◌==◌}
use yo_rha.Base.Outcome.{ok}
use yo_rha.Port.{Ports}
use yo_rha.Serial.{write_serial}
use yo_rha.Serial.Line.{line, IsSetAfter, write_serial_lem}

-- The number of questions, and the last byte that was written.
abbrev slow : Ports (ℕ × ℕ)
slow = record {
  inb = λ d port. (if port == 0x3f8 then 65 else if d.0 == 2 then 0x21 else 0, (suc d.0, d.1));
  inw = λ d port. (0, d);
  write_byte = λ d port x. (d.0, x);
  write_word = λ d port x. d;
}

below_two : (P : ℕ → Type 0) → P 0 → P 1 → (k : ℕ) → k < 2 → P k
below_two P p q zero lt = p
below_two P p q (suc zero) lt = q
below_two P p q (suc (suc k)) lt = absurd (omega arith)

slow-IsSetAfter : IsSetAfter slow 0x20 2 (0, 0)
slow-IsSetAfter = record {
  clear = λ k lt. below_two (λ k. bit_and (line slow k (0, 0)) 0x20 ≡ 0) refl refl k lt;
  raised = λ e. omega (arith, e);
}

write_serial_lem_example : write_serial slow 9 (0, 0) 65 ≡ ok (3, 65)
write_serial_lem_example = write_serial_lem slow 9 2 (0, 0) 65 (omega arith) slow-IsSetAfter
