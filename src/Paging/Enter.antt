-- ===== src/Paging/Enter.antt =====
-- `enter_page`: the entry of a page in a table that is there.
use Prim.Native.Nat.{bit_and, bit_or}
use yo_rha.Base.{
  ℕ, ◌+◌, ◌*◌, ◌/◌, ◌%◌, ◌^◌, ◌<◌, ◌≡◌, ◌≢◌, refl, sym, ap, ◌∙◌, some, arith, true, ◌==◌,
  ℕ_discrete,
}
use yo_rha.Base.Outcome.{ok}
use yo_rha.Paging.{Mmu, Space, put, table_window, enter_page}
use yo_rha.Paging.Entry.{present_test, page_offset, made_entry}
use yo_rha.Paging.Window.{IsTwoLevel, load-table, store-table, flush_tlb_lem}
use yo_rha.Paging.Invariant.{IsPaged, SameElsewhere, IsMapped}
use yo_rha.Paging.Walk.{translate, table_of, entry_of, translate_present, translate_same}

module _ (mmu : Mmu) (h : IsTwoLevel mmu) (va phys flags : ℕ) (in_range : va < 2 ^ 32)
    (low : va / 2 ^ 22 ≢ 1023) (aligned : phys % 4096 ≡ 0) (phys_small : phys < 2 ^ 32) where
  abbrev pub p : ℕ
  p = va / 2 ^ 22

  abbrev pub t : ℕ
  t = va / 4096 % 1024

  abbrev pub entry : ℕ
  entry = bit_or (bit_or phys (bit_and flags 0xfff)) 1

  entry_lem : (entry / 4096 ≡ phys / 4096) × (entry % 2 ≡ 1) × (entry < 2 ^ 32)
  entry_lem =
      made_entry phys (bit_and flags 0xfff) aligned phys_small (omega (arith, page_offset flags))

  module _ (s : Space) (v : IsPaged s) (here : s.frames s.cr3 p % 2 ≡ 1)
      (free : s.frames (s.frames s.cr3 p / 4096) t % 2 ≡ 0) where
    abbrev pub table : ℕ
    table = s.frames s.cr3 p / 4096

    abbrev pub entered : Space
    entered = record s { frames = put s.frames table t entry }

    apart : table ≢ s.cr3
    apart e =
        v.distinct p 1023 (omega arith) (omega arith) low here v.recursive.loop_present
          (e ∙ sym v.recursive.loop_frame)

    kept : (j : ℕ) → entered.frames s.cr3 j ≡ s.frames s.cr3 j
    kept j = ground (arith, apart)

    entered-IsPaged : IsPaged entered
    entered-IsPaged = record {
      recursive = record {
        loop_present = ap (λ (n : ℕ). n % 2) (kept 1023) ∙ v.recursive.loop_present;
        loop_frame = ap (λ (n : ℕ). n / 4096) (kept 1023) ∙ v.recursive.loop_frame;
      };
      distinct = λ q r lq lr ne hq hr e.
          v.distinct q r lq lr ne (ap (λ (n : ℕ). n % 2) (sym (kept q)) ∙ hq)
            (ap (λ (n : ℕ). n % 2) (sym (kept r)) ∙ hr)
            (ap (λ (n : ℕ). n / 4096) (sym (kept q)) ∙ e ∙ ap (λ (n : ℕ). n / 4096) (kept r));
      small = λ f i. ground (arith, v.small f i, entry_lem.2);
    }

    entered_page :
        (off : ℕ) → off < 4096 → translate entered (va / 4096 * 4096 + off) ≡ some (phys + off)
    entered_page off lt =
        let top : (va / 4096 * 4096 + off) / 2 ^ 22 ≡ p = omega arith in
        let mid : (va / 4096 * 4096 + off) / 4096 % 1024 ≡ t = omega arith in
        let rest : (va / 4096 * 4096 + off) % 4096 ≡ off = omega arith in
        let dir : entered.frames s.cr3 ((va / 4096 * 4096 + off) / 2 ^ 22) ≡ s.frames s.cr3 p =
          ap (λ (i : ℕ). entered.frames s.cr3 i) top ∙ kept p in
        let made : entry_of entered (va / 4096 * 4096 + off) ≡ entry =
          ground (arith, ap (λ (n : ℕ). n / 4096) dir, mid) in
        translate_present entered (va / 4096 * 4096 + off) (ap (λ (n : ℕ). n % 2) dir ∙ here)
          (ap (λ (n : ℕ). n % 2) made ∙ entry_lem.1)
        ∙ ap (λ (n : ℕ). some n) (omega (arith, ap (λ (n : ℕ). n / 4096) made, entry_lem.0, rest))

    entered_others : SameElsewhere s entered va
    entered_others a la ne_page ne_window = translate_same s entered a (kept (a / 2 ^ 22)) (λ there.
        elim (ℕ_discrete (a / 2 ^ 22) p) [
          | yes same ↦
              let ne : a / 4096 % 1024 ≢ t = λ e. ne_page (omega (arith, same, e)) in
              ground (arith, ne)
          | no other ↦
              let ne : table_of s a ≢ table =
                v.distinct (a / 2 ^ 22) p (omega arith) (omega arith) other there here in
              ground (arith, ne)
        ])

    pub entered_returns : enter_page mmu s (table_window p) t phys flags ≡ ok entered
    entered_returns =
        let even : (bit_and (s.frames table t) 1 == 0) ≡ true =
          ground (arith, present_test (s.frames table t)) in
        unfold enter_page in
        rw
          (
            load-table mmu h s v.recursive p t (omega arith) (omega arith) here,
            even,
            store-table mmu h s v.recursive p t (omega arith) (omega arith) here entry,
          )
          (flush_tlb_lem mmu h entered entered-IsPaged.recursive)

    pub entered-IsMapped : IsMapped s va phys entered
    entered-IsMapped = record {
      paged = entered-IsPaged;
      same_cr3 = refl;
      page = entered_page;
      others = entered_others;
    }
