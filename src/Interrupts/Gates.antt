-- ===== src/Interrupts/Gates.antt =====
-- What the processor reads in the entries of the descriptor tables.
use Prim.Native.Nat.{bit_and, bit_or}
use yo_rha.Base.{
  ℕ, zero, suc, ◌+◌, ◌*◌, ◌/◌, ◌%◌, ◌^◌, ◌≤◌, ◌<◌, ◌≡◌, ◌≢◌, ◌⊎◌, inl, refl, sym, ap, ◌∙◌, List,
  some, arith, true, ltb, ◌&&◌, ◌==◌, ==_iff, length, length-set, set, get_elem?,
  get_elem?-set_self, get_elem?-set_ne, ℕ_discrete,
}
use yo_rha.Base.Outcome.{Outcome, ok}
use yo_rha.Base.Bits.{bit_and-low_mask, bit_or-fields, bit_or_comm, all_below, all_below_sound}
use yo_rha.Interrupts.{
  GdtEntry, IdtEntry, gdt_entry, idt_entry, idt_set_gate, set_gates, isrs_install,
}

high_nibble_table : all_below 256 (λ g. bit_and g 0xf0 == g / 16 * 16) ≡ true
unfolding all_below
high_nibble_table = refl

-- The base, the limit, the granularity and the access byte of a segment, as the processor puts them
-- together.
abbrev pub segment_base : GdtEntry → ℕ
segment_base e = e.base_low + e.base_middle * 2 ^ 16 + e.base_high * 2 ^ 24

abbrev pub segment_limit : GdtEntry → ℕ
segment_limit e = e.limit_low + e.granularity % 16 * 2 ^ 16

abbrev pub gate_offset : IdtEntry → ℕ
gate_offset e = e.base_low + e.base_high * 2 ^ 16

-- An entry of the GDT holds the base, the low 20 bits of the limit, the access byte and the high
-- four bits of the granularity byte, for 32-bit numbers and bytes.
pub gdt_entry_lem :
    (base limit access gran : ℕ)
    → base < 2 ^ 32
    → gran < 256
    → let e = gdt_entry base limit access gran in
      (segment_base e ≡ base)
      × (segment_limit e ≡ limit % 2 ^ 20)
      × (e.access ≡ access)
      × (e.granularity / 16 ≡ gran / 16)
unfolding gdt_entry
gdt_entry_lem base limit access gran hb hg =
    let high : bit_and gran 0xf0 ≡ gran / 16 * 16 =
      (==_iff _ _).0
        (all_below_sound 256 (λ g. bit_and g 0xf0 == g / 16 * 16) gran high_nibble_table hg) in
    let low : bit_and (limit / 2 ^ 16) 0x0f ≡ limit / 2 ^ 16 % 16 =
      bit_and-low_mask 4 (limit / 2 ^ 16) in
    let both : bit_or (limit / 2 ^ 16 % 16) (gran / 16 * 16)
        ≡ gran / 16 * 16 + limit / 2 ^ 16 % 16 =
      bit_or_comm (limit / 2 ^ 16 % 16) (gran / 16 * 16)
      ∙ bit_or-fields 4 (gran / 16) (limit / 2 ^ 16 % 16) (omega arith) in
    let whole : bit_or (bit_and (limit / 2 ^ 16) 0x0f) (bit_and gran 0xf0)
        ≡ gran / 16 * 16 + limit / 2 ^ 16 % 16 =
      rw (low, high) both in
    let b0 = bit_and-low_mask 16 base in
    let b1 = bit_and-low_mask 8 (base / 2 ^ 16) in
    let b2 = bit_and-low_mask 8 (base / 2 ^ 24) in
    let l0 = bit_and-low_mask 16 limit in
    (omega (arith, b0, b1, b2), omega (arith, l0, whole), refl, omega (arith, whole))

flags_table :
    all_below 256 (λ f.
      (bit_or f 0x60 % 32 == f % 32)
      && ((bit_or f 0x60 / 32 % 4 == 3) && (bit_or f 0x60 / 128 == f / 128)))
    ≡ true
unfolding all_below
flags_table = refl

-- An entry of the IDT holds the address of the handler and the selector, for 32-bit addresses. The
-- type and the present bit are those that were asked for, and user code may always raise it.
pub idt_entry_lem :
    (base sel flags : ℕ)
    → base < 2 ^ 32
    → flags < 256
    → let e = idt_entry base sel flags in
      (gate_offset e ≡ base)
      × (e.sel ≡ sel)
      × (e.flags % 32 ≡ flags % 32)
      × (e.flags / 32 % 4 ≡ 3)
      × (e.flags / 128 ≡ flags / 128)
unfolding idt_entry
idt_entry_lem base sel flags hb hf =
    let row =
      all_below_sound 256
        (λ f.
          (bit_or f 0x60 % 32 == f % 32)
          && ((bit_or f 0x60 / 32 % 4 == 3) && (bit_or f 0x60 / 128 == f / 128)))
        flags flags_table hf in
    let low = bit_and-low_mask 16 base in
    let high = bit_and-low_mask 16 (base / 2 ^ 16) in
    (omega (arith, low, high), refl, ground (arith, row), ground (arith, row), ground (arith, row))

-- `out` has the gates of the vectors from `num` to `num + left`, and the old ones elsewhere.
pub record IsGated (stub : ℕ → ℕ) (left num : ℕ) (idt : List IdtEntry)
    (result : Outcome (List IdtEntry)) : Type 0 where
  pub out : List IdtEntry
  pub returns : result ≡ ok out
  pub same_length : length out ≡ length idt
  pub gates :
      (n : ℕ) → num ≤ n → n < num + left → get_elem? out n ≡ some (idt_entry (stub n) 0x08 0x8e)
  pub others : (n : ℕ) → (n < num) ⊎ (num + left ≤ n) → get_elem? out n ≡ get_elem? idt n

set_gates-IsGated :
    (stub : ℕ → ℕ) (left num : ℕ) (idt : List IdtEntry)
    → num + left ≤ length idt
    → IsGated stub left num idt (set_gates stub left num idt)
unfolding set_gates idt_set_gate
set_gates-IsGated stub zero num idt h = record {
  out = idt;
  returns = refl;
  same_length = refl;
  gates = λ n lo hi. absurd (omega arith);
  others = λ n away. refl;
}
set_gates-IsGated stub (suc left) num idt h =
    let gate = idt_entry (stub num) 0x08 0x8e in
    let room : ltb num (length idt) ≡ true = ground arith in
    let rest : IsGated stub left (suc num) (set idt num gate)
        (set_gates stub left (suc num) (set idt num gate)) =
      set_gates-IsGated stub left (suc num) (set idt num gate)
        (omega (arith, length-set idt num gate)) in
    record {
      out = rest.out;
      returns = rw room rest.returns;
      same_length = rest.same_length ∙ length-set idt num gate;
      gates = λ n lo hi. elim (ℕ_discrete num n) [
        | yes same ↦
            ap (λ (k : ℕ). get_elem? rest.out k) (sym same)
            ∙ rest.others num (inl (omega arith))
            ∙ get_elem?-set_self idt num gate (omega arith)
            ∙ ap (λ (k : ℕ). some (idt_entry (stub k) 0x08 0x8e)) same
        | no ne ↦ rest.gates n (omega arith) (omega arith)
      ];
      others = λ n away.
          let ne : num ≢ n = λ same. ground arith in
          rest.others n (ground arith) ∙ get_elem?-set_ne idt num n gate ne;
    }

-- `isrs_install`, on a table of 256 entries, returns, and the gates of the 32 exceptions lead to
-- their stubs; the other gates are as they were.
pub isrs_install-IsGated :
    (stub : ℕ → ℕ) (idt : List IdtEntry)
    → length idt ≡ 256
    → IsGated stub 32 0 idt (isrs_install stub idt)
unfolding isrs_install
isrs_install-IsGated stub idt h = set_gates-IsGated stub 32 0 idt (omega (arith, h))
