-- ===== src/Paging/Walk.antt =====
-- The walk through the tables, entry by entry.
use yo_rha.Base.{
  ℕ, ◌+◌, ◌*◌, ◌/◌, ◌%◌, ◌^◌, ◌≡◌, refl, sym, ap, ◌∙◌, Option, none, some, arith, true, false, ◌==◌,
  ℕ_discrete,
}
use yo_rha.Paging.{Space}
use yo_rha.Paging.Window.{two_level}

-- Where an address leads in this space.
abbrev pub translate : Space → ℕ → Option ℕ
translate s va = two_level s.frames s.cr3 va

-- The frame of the table of an address, and its entry there.
abbrev pub table_of : Space → ℕ → ℕ
table_of s va = s.frames s.cr3 (va / 2 ^ 22) / 4096

abbrev pub entry_of : Space → ℕ → ℕ
entry_of s va = s.frames (table_of s va) (va / 4096 % 1024)

module _ (s : Space) (va : ℕ) where
  pub translate_present :
      s.frames s.cr3 (va / 2 ^ 22) % 2 ≡ 1
      → entry_of s va % 2 ≡ 1
      → translate s va ≡ some (entry_of s va / 4096 * 4096 + va % 4096)
  translate_present here there =
      let odd : (s.frames s.cr3 (va / 2 ^ 22) % 2 == 0) ≡ false = ground (arith, here) in
      let odd' : (entry_of s va % 2 == 0) ≡ false = ground (arith, there) in rw (odd, odd') (refl)

  pub translate_no_table : s.frames s.cr3 (va / 2 ^ 22) % 2 ≡ 0 → translate s va ≡ none
  translate_no_table gone =
      let even : (s.frames s.cr3 (va / 2 ^ 22) % 2 == 0) ≡ true = ground (arith, gone) in
      rw even (refl)

  pub translate_no_page :
      s.frames s.cr3 (va / 2 ^ 22) % 2 ≡ 1 → entry_of s va % 2 ≡ 0 → translate s va ≡ none
  translate_no_page here gone =
      let odd : (s.frames s.cr3 (va / 2 ^ 22) % 2 == 0) ≡ false = ground (arith, here) in
      let even : (entry_of s va % 2 == 0) ≡ true = ground (arith, gone) in rw (odd, even) (refl)

-- The entry of the directory and, where it leads to a table, the entry there are all that counts.
pub translate_same :
    (s out : Space) (a : ℕ)
    → out.frames out.cr3 (a / 2 ^ 22) ≡ s.frames s.cr3 (a / 2 ^ 22)
    → (s.frames s.cr3 (a / 2 ^ 22) % 2 ≡ 1
        → out.frames (table_of s a) (a / 4096 % 1024) ≡ entry_of s a)
    → translate out a ≡ translate s a
translate_same s out a top below =
    let same : table_of out a ≡ table_of s a = ap (λ (n : ℕ). n / 4096) top in
    elim (ℕ_discrete (s.frames s.cr3 (a / 2 ^ 22) % 2) 1) [
      | no gone ↦
          let even : s.frames s.cr3 (a / 2 ^ 22) % 2 ≡ 0 = omega (arith, gone) in
          translate_no_table out a (ap (λ (n : ℕ). n % 2) top ∙ even)
          ∙ sym (translate_no_table s a even)
      | yes here ↦
          let entry : entry_of out a ≡ entry_of s a =
            ap (λ (f : ℕ). out.frames f (a / 4096 % 1024)) same ∙ below here in
          elim (ℕ_discrete (entry_of s a % 2) 1) [
            | no gone ↦
                let even : entry_of s a % 2 ≡ 0 = omega (arith, gone) in
                translate_no_page out a (ap (λ (n : ℕ). n % 2) top ∙ here)
                  (ap (λ (n : ℕ). n % 2) entry ∙ even)
                ∙ sym (translate_no_page s a here even)
            | yes there ↦
                translate_present out a (ap (λ (n : ℕ). n % 2) top ∙ here)
                  (ap (λ (n : ℕ). n % 2) entry ∙ there)
                ∙ ap (λ (n : ℕ). some (n / 4096 * 4096 + a % 4096)) entry
                ∙ sym (translate_present s a here there)
          ]
    ]
