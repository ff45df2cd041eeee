-- ===== src/Interrupts/Exceptions.antt =====
-- The exceptions and the system call (`isr_handler` of src/interrupts.c, `syscall_handler` of
-- src/kernel.c) and the timer (src/io.c). `stack` is what `kprintf` finds in its arrays.
use yo_rha.Base.{
  ℕ, ◌/◌, ◌<◌, ◌≡◌, ◌≢◌, true, arith, List, [], ◌∷◌, ◌++◌, ltb, ◌==◌, if◌then◌else◌, get_elem?,
  replicate,
}
use yo_rha.Base.Outcome.{Outcome, ok, diverges, ◌>>=◌, in_bounds, bind_ne_ok}
use yo_rha.Base.Word.{add64, u8, shr}
use yo_rha.Port.{Trace, outb}
use yo_rha.Printf.{number, kprintf}
use yo_rha.Vga.{Screen}

abbrev reserved : List ℕ
reserved = b'R' ∷ b'e' ∷ b's' ∷ b'e' ∷ b'r' ∷ b'v' ∷ b'e' ∷ b'd' ∷ []

-- The messages have their terminating zeros added where they are read.
pub exception_messages : List (List ℕ)
exception_messages =
    (b'D' ∷ b'i' ∷ b'v' ∷ b'i' ∷ b's' ∷ b'i' ∷ b'o' ∷ b'n' ∷ b' ' ∷ b'B' ∷ b'y' ∷ b' ' ∷ b'Z' ∷ b'e'
      ∷ b'r' ∷ b'o' ∷ [])
    ∷ (b'D' ∷ b'e' ∷ b'b' ∷ b'u' ∷ b'g' ∷ [])
    ∷ (b'N' ∷ b'o' ∷ b'n' ∷ b' ' ∷ b'M' ∷ b'a' ∷ b's' ∷ b'k' ∷ b'a' ∷ b'b' ∷ b'l' ∷ b'e' ∷ b' '
        ∷ b'I' ∷ b'n' ∷ b't' ∷ b'e' ∷ b'r' ∷ b'r' ∷ b'u' ∷ b'p' ∷ b't' ∷ [])
    ∷ (b'B' ∷ b'r' ∷ b'e' ∷ b'a' ∷ b'k' ∷ b'p' ∷ b'o' ∷ b'i' ∷ b'n' ∷ b't' ∷ [])
    ∷ (b'I' ∷ b'n' ∷ b't' ∷ b'o' ∷ b' ' ∷ b'D' ∷ b'e' ∷ b't' ∷ b'e' ∷ b'c' ∷ b't' ∷ b'e' ∷ b'd'
        ∷ b' ' ∷ b'O' ∷ b'v' ∷ b'e' ∷ b'r' ∷ b'f' ∷ b'l' ∷ b'o' ∷ b'w' ∷ [])
    ∷ (b'O' ∷ b'u' ∷ b't' ∷ b' ' ∷ b'o' ∷ b'f' ∷ b' ' ∷ b'B' ∷ b'o' ∷ b'u' ∷ b'n' ∷ b'd' ∷ b's'
        ∷ [])
    ∷ (b'I' ∷ b'n' ∷ b'v' ∷ b'a' ∷ b'l' ∷ b'i' ∷ b'd' ∷ b' ' ∷ b'O' ∷ b'p' ∷ b'c' ∷ b'o' ∷ b'd'
        ∷ b'e' ∷ [])
    ∷ (b'N' ∷ b'o' ∷ b' ' ∷ b'C' ∷ b'o' ∷ b'p' ∷ b'r' ∷ b'o' ∷ b'c' ∷ b'e' ∷ b's' ∷ b's' ∷ b'o'
        ∷ b'r' ∷ [])
    ∷ (b'D' ∷ b'o' ∷ b'u' ∷ b'b' ∷ b'l' ∷ b'e' ∷ b' ' ∷ b'F' ∷ b'a' ∷ b'u' ∷ b'l' ∷ b't' ∷ [])
    ∷ (b'C' ∷ b'o' ∷ b'p' ∷ b'r' ∷ b'o' ∷ b'c' ∷ b'e' ∷ b's' ∷ b's' ∷ b'o' ∷ b'r' ∷ b' ' ∷ b'S'
        ∷ b'e' ∷ b'g' ∷ b'm' ∷ b'e' ∷ b'n' ∷ b't' ∷ b' ' ∷ b'O' ∷ b'v' ∷ b'e' ∷ b'r' ∷ b'r' ∷ b'u'
        ∷ b'n' ∷ [])
    ∷ (b'B' ∷ b'a' ∷ b'd' ∷ b' ' ∷ b'T' ∷ b'S' ∷ b'S' ∷ [])
    ∷ (b'S' ∷ b'e' ∷ b'g' ∷ b'm' ∷ b'e' ∷ b'n' ∷ b't' ∷ b' ' ∷ b'N' ∷ b'o' ∷ b't' ∷ b' ' ∷ b'P'
        ∷ b'r' ∷ b'e' ∷ b's' ∷ b'e' ∷ b'n' ∷ b't' ∷ [])
    ∷ (b'S' ∷ b't' ∷ b'a' ∷ b'c' ∷ b'k' ∷ b' ' ∷ b'F' ∷ b'a' ∷ b'u' ∷ b'l' ∷ b't' ∷ [])
    ∷ (b'G' ∷ b'e' ∷ b'n' ∷ b'e' ∷ b'r' ∷ b'a' ∷ b'l' ∷ b' ' ∷ b'P' ∷ b'r' ∷ b'o' ∷ b't' ∷ b'e'
        ∷ b'c' ∷ b't' ∷ b'i' ∷ b'o' ∷ b'n' ∷ b' ' ∷ b'F' ∷ b'a' ∷ b'u' ∷ b'l' ∷ b't' ∷ [])
    ∷ (b'P' ∷ b'a' ∷ b'g' ∷ b'e' ∷ b' ' ∷ b'F' ∷ b'a' ∷ b'u' ∷ b'l' ∷ b't' ∷ [])
    ∷ (b'U' ∷ b'n' ∷ b'k' ∷ b'n' ∷ b'o' ∷ b'w' ∷ b'n' ∷ b' ' ∷ b'I' ∷ b'n' ∷ b't' ∷ b'e' ∷ b'r'
        ∷ b'r' ∷ b'u' ∷ b'p' ∷ b't' ∷ [])
    ∷ (b'C' ∷ b'o' ∷ b'p' ∷ b'r' ∷ b'o' ∷ b'c' ∷ b'e' ∷ b's' ∷ b's' ∷ b'o' ∷ b'r' ∷ b' ' ∷ b'F'
        ∷ b'a' ∷ b'u' ∷ b'l' ∷ b't' ∷ [])
    ∷ (b'A' ∷ b'l' ∷ b'i' ∷ b'g' ∷ b'n' ∷ b'm' ∷ b'e' ∷ b'n' ∷ b't' ∷ b' ' ∷ b'C' ∷ b'h' ∷ b'e'
        ∷ b'c' ∷ b'k' ∷ [])
    ∷ (b'M' ∷ b'a' ∷ b'c' ∷ b'h' ∷ b'i' ∷ b'n' ∷ b'e' ∷ b' ' ∷ b'C' ∷ b'h' ∷ b'e' ∷ b'c' ∷ b'k'
        ∷ [])
    ∷ replicate 13 reserved

-- `Registers`, as far as the handlers read it.
pub record Registers : Type 0 where
  pub int_no : ℕ
  pub err_code : ℕ

-- The endless loop behind the message of an exception is `diverges`.
pub isr_handler : List ℕ → Screen → Registers → Outcome Screen
isr_handler stack s r =
    let exception = in_bounds (get_elem? exception_messages r.int_no) >>= λ message.
    kprintf stack s (message ++ 0 ∷ []) [] >>= λ s1.
    kprintf stack s1
      (b' ' ∷ b'E' ∷ b'x' ∷ b'c' ∷ b'e' ∷ b'p' ∷ b't' ∷ b'i' ∷ b'o' ∷ b'n' ∷ b'.' ∷ b' ' ∷ b'S'
          ∷ b'y' ∷ b's' ∷ b't' ∷ b'e' ∷ b'm' ∷ b' ' ∷ b'H' ∷ b'a' ∷ b'l' ∷ b't' ∷ b'e' ∷ b'd' ∷ b'!'
          ∷ 10 ∷ []
        ++ 0 ∷ [])
      []
    >>= λ s2. diverges in
    let system_call =
      kprintf stack s
        (b'S' ∷ b'y' ∷ b's' ∷ b't' ∷ b'e' ∷ b'm' ∷ b' ' ∷ b'c' ∷ b'a' ∷ b'l' ∷ b'l' ∷ b':' ∷ b' '
            ∷ b'%' ∷ b'd' ∷ 10 ∷ []
          ++ 0 ∷ [])
        (number r.err_code ∷ []) in
    if ltb r.int_no 32 then exception else if r.int_no == 80 then system_call else ok s

-- `value` is what `arguments` points to.
pub syscall_handler : List ℕ → Screen → ℕ → Registers → Outcome Screen
syscall_handler stack s value r =
    kprintf stack s
      (b'V' ∷ b'a' ∷ b'l' ∷ b'u' ∷ b'e' ∷ b':' ∷ b' ' ∷ b'0' ∷ b'x' ∷ b'%' ∷ b'x' ∷ 10 ∷ []
        ++ 0 ∷ [])
      (number value ∷ [])
    >>= λ s1.
        kprintf stack s1
          (b'c' ∷ b'a' ∷ b'l' ∷ b'l' ∷ b' ' ∷ b'i' ∷ b'd' ∷ b':' ∷ b' ' ∷ b'0' ∷ b'x' ∷ b'%' ∷ b'x'
              ∷ 10 ∷ []
            ++ 0 ∷ [])
          (number r.err_code ∷ [])

-- `outb` takes the low byte of what is left of the divisor.
pub timer_phase : ℕ → Trace → Trace
timer_phase hz ports =
    let divisor = 1193180 / hz in
    ports ++ (outb 0x43 0x36 ∷ outb 0x40 (u8 divisor) ∷ outb 0x40 (u8 (shr divisor 8)) ∷ [])

pub timer_handler : ℕ → ℕ
timer_handler timer_counter = add64 timer_counter 1

-- The kernel never goes on behind an exception: `isr_handler` does not return for the vectors below
-- 32, whether its messages can be shown or not.
pub isr_handler-ne-ok :
    (stack : List ℕ) (s out : Screen) (r : Registers)
    → r.int_no < 32
    → isr_handler stack s r ≢ ok out
unfolding isr_handler
isr_handler-ne-ok stack s out r exception =
    let test : ltb r.int_no 32 ≡ true = ground arith in
    rw test (
      bind_ne_ok (in_bounds (get_elem? exception_messages r.int_no)) _ out (λ (message : List ℕ) e.
        bind_ne_ok (kprintf stack s (message ++ 0 ∷ []) []) _ out (λ (s1 : Screen) e1.
          bind_ne_ok
            (kprintf stack s1
              (b' ' ∷ b'E' ∷ b'x' ∷ b'c' ∷ b'e' ∷ b'p' ∷ b't' ∷ b'i' ∷ b'o' ∷ b'n' ∷ b'.' ∷ b' '
                  ∷ b'S' ∷ b'y' ∷ b's' ∷ b't' ∷ b'e' ∷ b'm' ∷ b' ' ∷ b'H' ∷ b'a' ∷ b'l' ∷ b't'
                  ∷ b'e' ∷ b'd' ∷ b'!' ∷ 10 ∷ []
                ++ 0 ∷ [])
              [])
            _ out (λ (s2 : Screen) e2 never. cc))))
