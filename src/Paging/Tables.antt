-- ===== src/Paging/Tables.antt =====
-- A new table: the loop that clears it through its window.
use yo_rha.Base.{
  ℕ, zero, suc, ◌-◌, ◌/◌, ◌%◌, ◌≤◌, ◌<◌, ◌≡◌, ◌≢◌, refl, sym, ap, ◌∙◌, arith, ◌==◌, ◌&&◌, leb, ltb,
  if◌then◌else◌,
}
use yo_rha.Base.Outcome.{Outcome, ok}
use yo_rha.Paging.{Mmu, Space, put, table_window, clear_table}
use yo_rha.Paging.Window.{IsTwoLevel, IsRecursive, store-table}

-- `out` is `s` with the words of frame `f` from index `first` on cleared.
pub record IsCleared (f first : ℕ) (s : Space) (result : Outcome Space) : Type 0 where
  pub out : Space
  pub returns : result ≡ ok out
  pub same_cr3 : out.cr3 ≡ s.cr3
  pub words :
      (g j : ℕ)
      → out.frames g j ≡ (if (g == f) && (leb first j && ltb j 1024) then 0 else s.frames g j)

module _ (mmu : Mmu) (h : IsTwoLevel mmu) (p : ℕ) (lp : p < 1024) where
  pub clear_table-IsCleared :
      (left : ℕ) (s : Space)
      → IsRecursive s
      → left ≤ 1024
      → s.frames s.cr3 p % 2 ≡ 1
      → s.frames s.cr3 p / 4096 ≢ s.cr3
      → IsCleared
          (s.frames s.cr3 p / 4096)
          (1024 - left)
          s
          (clear_table mmu (table_window p) left s)
  unfolding clear_table
  clear_table-IsCleared zero s v le here ne = record {
    out = s;
    returns = refl;
    same_cr3 = refl;
    words = λ g j. ground arith;
  }
  clear_table-IsCleared (suc left) s v le here ne =
      let f = s.frames s.cr3 p / 4096 in
      let s1 : Space = record s { frames = put s.frames f (1023 - left) 0 } in
      let kept : (j : ℕ) → s1.frames s.cr3 j ≡ s.frames s.cr3 j = λ j. ground arith in
      let v1 : IsRecursive s1 = record {
        loop_present = ap (λ (n : ℕ). n % 2) (kept 1023) ∙ v.loop_present;
        loop_frame = ap (λ (n : ℕ). n / 4096) (kept 1023) ∙ v.loop_frame;
      } in
      let same : s1.frames s.cr3 p / 4096 ≡ f = ap (λ (n : ℕ). n / 4096) (kept p) in
      let rest : IsCleared (s1.frames s.cr3 p / 4096) (1024 - left) s1
          (clear_table mmu (table_window p) left s1) =
        clear_table-IsCleared left s1 v1 (omega arith) (ap (λ (n : ℕ). n % 2) (kept p) ∙ here)
          (λ e. ne (sym same ∙ e)) in
      record {
        out = rest.out;
        returns = rw (store-table mmu h s v p (1023 - left) lp (omega arith) here 0) rest.returns;
        same_cr3 = rest.same_cr3;
        words = λ g j. ground (arith, rest.words g j, same);
      }
