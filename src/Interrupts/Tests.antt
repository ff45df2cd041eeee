-- ===== src/Interrupts/Tests.antt =====
-- The tables and a dispatched interrupt at concrete inputs.
use yo_rha.Base.{
  ℕ, ◌+◌, ◌*◌, ◌<◌, ◌≡◌, ◌≢◌, refl, List, ◌∷◌, none, some, arith, length, length-replicate,
  replicate,
}
use yo_rha.Base.Outcome.{ok, ◌>>=◌}
use yo_rha.Port.{Trace}
use yo_rha.Interrupts.{IdtEntry, Handler, Routines, irq_install_handler, irq_handler, pic_send_eoi}
use yo_rha.Interrupts.Dispatch.{irq_handler-irq_install_handler}

-- Stubs of sixteen bytes each.
abbrev stub : ℕ → ℕ
stub n = 0x10_0000 + n * 16

abbrev no_gate : IdtEntry
no_gate = record { base_low = 0; sel = 0; zero_byte = 0; flags = 0; base_high = 0 }

empty_idt : List IdtEntry
empty_idt = replicate 256 no_gate

length-empty_idt : length empty_idt ≡ 256
unfolding empty_idt
length-empty_idt = length-replicate 256 no_gate

-- The state counts the ticks of the timer.
abbrev tick : Handler ℕ
tick s = ok (s.0 + 1, s.1)

abbrev no_routines : Routines ℕ
no_routines = replicate 16 none

abbrev timer_only : Routines ℕ
timer_only = some tick ∷ replicate 15 none

irq_handler-irq_install_handler_example :
    (out : Routines ℕ) × (irq_install_handler no_routines 12 tick ≡ ok out)
    × ((s : ℕ × Trace) → irq_handler out 44 s ≡ (tick s >>= λ s'. ok (s'.0, pic_send_eoi 12 s'.1)))
    × ((other : ℕ) (s : ℕ × Trace)
        → other < 16
        → 12 ≢ other
        → irq_handler out (32 + other) s ≡ irq_handler no_routines (32 + other) s)
irq_handler-irq_install_handler_example =
    irq_handler-irq_install_handler no_routines 12 tick (omega arith) refl
