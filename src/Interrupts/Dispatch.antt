-- ===== src/Interrupts/Dispatch.antt =====
-- Hardware interrupts: the routine that runs and the acknowledgement.
use yo_rha.Base.{
  ℕ, ◌+◌, ◌-◌, ◌%◌, ◌^◌, ◌<◌, ◌≡◌, ◌≢◌, refl, sym, ◌∙◌, Option, none, some, arith, true, leb, ltb,
  length, set, get_elem?, get_elem?-set_self, get_elem?-set_ne, get_elem?-eq-get_or,
}
use yo_rha.Base.Outcome.{ok, ◌>>=◌}
use yo_rha.Port.{Trace}
use yo_rha.Interrupts.{
  Handler, Routines, run_routine, irq_install_handler, irq_handler, pic_send_eoi,
}

-- For each line of the controllers, `irq_handler` runs the routine of that line, if it has one, and
-- then acknowledges the interrupt as `PIC_sendEOI` does: nothing is acknowledged before it returns.
pub irq_handler_lem :
    {S : Type 0} (routines : Routines S) (irq : ℕ) (routine : Option (Handler S)) (s : S × Trace)
    → irq < 16
    → get_elem? routines irq ≡ some routine
    → irq_handler routines (32 + irq) s
      ≡ (run_routine routine s >>= λ s'. ok (s'.0, pic_send_eoi irq s'.1))
unfolding irq_handler pic_send_eoi
irq_handler_lem routines irq routine s lt found =
    let line : (32 + irq + 2 ^ 32 - 32) % 2 ^ 32 ≡ irq = omega arith in
    let slave : leb 40 (32 + irq) ≡ leb 8 irq = ground arith in rw (line, found, slave) (refl)

-- A handler that is installed for one of 16 lines is what an interrupt on that line runs before it
-- is acknowledged, and interrupts on the other lines are handled as before.
pub irq_handler-irq_install_handler :
    {S : Type 0} (routines : Routines S) (irq : ℕ) (handler : Handler S)
    → irq < 16
    → length routines ≡ 16
    → (out : Routines S) × (irq_install_handler routines irq handler ≡ ok out)
      × ((s : S × Trace)
          → irq_handler out (32 + irq) s ≡ (handler s >>= λ s'. ok (s'.0, pic_send_eoi irq s'.1)))
      × ((other : ℕ) (s : S × Trace)
          → other < 16
          → irq ≢ other
          → irq_handler out (32 + other) s ≡ irq_handler routines (32 + other) s)
irq_handler-irq_install_handler {S} routines irq handler lt h =
    let room : ltb irq (length routines) ≡ true = ground arith in
    let out : Routines S = set routines irq (some handler) in
    (
      out,
      (unfold irq_install_handler in rw room (refl)),
      (λ s.
          irq_handler_lem out irq (some handler) s lt
            (get_elem?-set_self routines irq (some handler) (omega (arith, h)))
          ∙ (unfold run_routine in refl)),
      (λ other s small ne.
          let old = get_elem?-eq-get_or routines other none (omega (arith, h)) in
          irq_handler_lem out other _ s small
            (get_elem?-set_ne routines irq other (some handler) ne ∙ old)
          ∙ sym (irq_handler_lem routines other _ s small old)),
    )
