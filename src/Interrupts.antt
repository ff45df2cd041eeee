-- ===== src/Interrupts.antt =====
-- The descriptor tables and the interrupt controllers of src/interrupts.c. The tables are lists, and
-- an access outside one is `fault`; the bytes to the controllers are a trace. The addresses of the
-- assembly stubs are an argument, as is what a handler does to the state of the kernel.
pub mod Gates
pub mod Dispatch
pub mod Exceptions
mod Tests
use Prim.Native.Nat.{bit_and, bit_or}
use yo_rha.Base.{
  ℕ, zero, suc, ◌+◌, ◌-◌, ◌^◌, List, [], ◌∷◌, ◌++◌, Option, none, some, leb, ltb, if◌then◌else◌,
  length, set, get_elem?,
}
use yo_rha.Base.Outcome.{Outcome, ok, fault, ◌>>=◌, in_bounds}
use yo_rha.Base.Word.{u8, u16, sub32, shr}
use yo_rha.Port.{Trace, outb}

pub record GdtEntry : Type 0 where
  pub limit_low : ℕ
  pub base_low : ℕ
  pub base_middle : ℕ
  pub access : ℕ
  pub granularity : ℕ
  pub base_high : ℕ

pub record IdtEntry : Type 0 where
  pub base_low : ℕ
  pub sel : ℕ
  pub zero_byte : ℕ
  pub flags : ℕ
  pub base_high : ℕ

-- A write to an element of a table.
abbrev store_entry {ℓ} : {A : Type ℓ} → List A → ℕ → A → Outcome (List A)
store_entry table num entry = if ltb num (length table) then ok (set table num entry) else fault

-- The entry of `gdt_set_gate`.
pub gdt_entry : ℕ → ℕ → ℕ → ℕ → GdtEntry
gdt_entry base limit access gran = record {
  limit_low = bit_and limit 0xffff;
  base_low = bit_and base 0xffff;
  base_middle = bit_and (shr base 16) 0xff;
  access = access;
  granularity = bit_or (bit_and (shr limit 16) 0x0f) (bit_and gran 0xf0);
  base_high = bit_and (shr base 24) 0xff;
}

gdt_set_gate : List GdtEntry → ℕ → ℕ → ℕ → ℕ → ℕ → Outcome (List GdtEntry)
gdt_set_gate gdt num base limit access gran = store_entry gdt num (gdt_entry base limit access gran)

-- The five segments: none, and code and data of the kernel and of the user.
gdt_install : List GdtEntry → Outcome (List GdtEntry)
gdt_install gdt = do
  gdt ← gdt_set_gate gdt 0 0 0 0 0
  gdt ← gdt_set_gate gdt 1 0 0xffff_ffff 0x9a 0xcf
  gdt ← gdt_set_gate gdt 2 0 0xffff_ffff 0x92 0xcf
  gdt ← gdt_set_gate gdt 3 0 0xffff_ffff 0xfa 0xcf
  gdt_set_gate gdt 4 0 0xffff_ffff 0xf2 0xcf

-- The entry of `idt_set_gate`.
pub idt_entry : ℕ → ℕ → ℕ → IdtEntry
idt_entry base sel flags = record {
  base_low = bit_and base 0xffff;
  sel = sel;
  zero_byte = 0;
  flags = bit_or flags 0x60;
  base_high = bit_and (shr base 16) 0xffff;
}

pub idt_set_gate : List IdtEntry → ℕ → ℕ → ℕ → ℕ → Outcome (List IdtEntry)
idt_set_gate idt num base sel flags = store_entry idt num (idt_entry base sel flags)

-- The calls of `idt_set_gate` for `left` vectors from `num` on; `stub` gives the stubs' addresses.
pub set_gates : (ℕ → ℕ) → ℕ → ℕ → List IdtEntry → Outcome (List IdtEntry)
set_gates stub zero num idt = ok idt
set_gates stub (suc left) num idt =
    idt_set_gate idt num (stub num) 0x08 0x8e >>= set_gates stub left (suc num)

pub isrs_install : (ℕ → ℕ) → List IdtEntry → Outcome (List IdtEntry)
isrs_install stub idt = set_gates stub 32 0 idt

-- The initialisation words of the two controllers, and their masks.
irq_remap : ℕ → ℕ → Trace → Trace
irq_remap offset1 offset2 ports =
    ports
    ++ (outb 0x20 0x11
        ∷ outb 0xa0 0x11
        ∷ outb 0x21 (u8 offset1)
        ∷ outb 0xa1 (u8 offset2)
        ∷ outb 0x21 4
        ∷ outb 0xa1 2
        ∷ outb 0x21 1
        ∷ outb 0xa1 1
        ∷ outb 0x21 0
        ∷ outb 0xa1 0
        ∷ [])

irq_install : (ℕ → ℕ) → List IdtEntry → Trace → Outcome (List IdtEntry × Trace)
irq_install stub idt ports = set_gates stub 16 32 idt >>= λ idt'.
    idt_set_gate idt' 80 (stub 80) 0x08 0x8e >>= λ idt2. ok (idt2, irq_remap 0x20 0x28 ports)

-- `PIC_sendEOI`.
pub pic_send_eoi : ℕ → Trace → Trace
pic_send_eoi irq ports =
    (if leb 8 irq then ports ++ (outb 0xa0 0x20 ∷ []) else ports) ++ (outb 0x20 0x20 ∷ [])

pic_disable : Trace → Trace
pic_disable ports = ports ++ (outb 0x21 0xff ∷ outb 0xa1 0xff ∷ [])

-- A handler acts on the state of the kernel and on the ports.
abbrev pub Handler : Type 0 → Type 0
Handler S = S × Trace → Outcome (S × Trace)

-- `irq_routines`: a null pointer is `none`.
abbrev pub Routines : Type 0 → Type 0
Routines S = List (Option (Handler S))

pub irq_install_handler : {S : Type 0} → Routines S → ℕ → Handler S → Outcome (Routines S)
irq_install_handler routines irq handler = store_entry routines irq (some handler)

irq_uninstall_handler : {S : Type 0} → Routines S → ℕ → Outcome (Routines S)
irq_uninstall_handler routines irq = store_entry routines irq none

-- The call through the pointer, if it is set.
pub run_routine : {S : Type 0} → Option (Handler S) → Handler S
run_routine none s = ok s
run_routine (some handler) s = handler s

pub irq_handler : {S : Type 0} → Routines S → ℕ → Handler S
irq_handler routines int_no s = in_bounds (get_elem? routines (sub32 int_no 32)) >>= λ routine.
    run_routine routine s >>= λ s'.
    ok (
      s'.0,
      (if leb 40 int_no then s'.1 ++ (outb 0xa0 0x20 ∷ []) else s'.1) ++ (outb 0x20 0x20 ∷ []),
    )
