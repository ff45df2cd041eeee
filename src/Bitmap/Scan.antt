-- ===== src/Bitmap/Scan.antt =====
-- The two loops of `alloc_bitrange`.
use yo_rha.Base.{
  ℕ, zero, suc, ◌+◌, ◌-◌, ◌*◌, ◌%◌, ◌≤◌, ◌<◌, ◌≡◌, refl, ◌∙◌, ◌⊎◌, inl, inr, Bool, true, false,
  List, arith, ◌==◌, ==_iff, get_or, length, get_elem?-eq-get_or, dec_lt, ℕ_discrete,
}
use yo_rha.Base.Outcome.{Outcome, ok, panicked, fault, diverges, ◌>>=◌}
use mathlib.Core.Path.{subst}
use yo_rha.Base.Bits.{test_bit, test_bit-lt}
use yo_rha.Bitmap.{
  bit_at, Cursor, ScanResult, found, next, visit, scan_bits, scan_words, cursor_zero,
}
use yo_rha.Bitmap.Passed.{
  IsScanned, IsFirstFit, bit_at_word, visit-taken, Blocked, zero_aligned, ScanPost, visit-clear,
  kept_le, multiple_gap, grain, kept_aligned, kept_near,
}

module _ (bitmap : List ℕ) (align : Bool) (count : ℕ) (pos : 0 < count) where
  -- A free position extends the cursor.
  extend-IsFirstFit :
      {p : ℕ} {c : Cursor}
      → IsScanned bitmap align count p c
      → bit_at bitmap p ≡ 0
      → c.length + 1 ≡ count
      → IsFirstFit bitmap align count (record { start = c.start; length = c.length + 1 })
  extend-IsFirstFit {p} {c} v clear e = record {
    full_length = e;
    aligned = v.aligned;
    free = λ q lo hi. elim (ℕ_discrete q p) [
      | yes same ↦ rw same clear
      | no ne ↦ v.free q lo (omega (arith, v.here))
    ];
    first = λ s a h. v.none_before s a (omega (arith, v.here));
  }

  none_before-extend :
      {p : ℕ} {c : Cursor}
      → IsScanned bitmap align count p c
      → c.length + 1 < count
      → (s : ℕ) → s % grain align ≡ 0
      → s + count ≤ p + 1
      → Blocked bitmap align count s count
  none_before-extend {p} {c} v e s a h = elim (dec_lt p (s + count)) [
    | no old ↦ v.none_before s a (omega arith)
    | yes new ↦ elim v.behind [
      | inl at_zero ↦ absurd (omega (arith, v.here))
      | inr (q, lo, hi, taken) ↦
          let below : s < c.start = omega (arith, v.here) in
          let gap : s + grain align ≤ c.start = multiple_gap align s c.start a v.aligned below in
          (q, omega arith, omega (arith, v.here), taken)
    ]
  ]

  extend-IsScanned :
      {p : ℕ} {c : Cursor}
      → IsScanned bitmap align count p c
      → bit_at bitmap p ≡ 0
      → c.length + 1 < count
      → IsScanned bitmap align count (p + 1) (record { start = c.start; length = c.length + 1 })
  extend-IsScanned {p} {c} v clear e = record {
    here = omega (arith, v.here);
    short = e;
    aligned = v.aligned;
    free = λ q lo hi. elim (ℕ_discrete q p) [
      | yes same ↦ rw same clear
      | no ne ↦ v.free q lo (omega arith)
    ];
    behind = v.behind;
    none_before = none_before-extend v e;
  }

  -- A taken position restarts the range behind it, or behind its nibble.
  restart-IsScanned :
      {p p' : ℕ} {c : Cursor}
      → IsScanned bitmap align count p c
      → bit_at bitmap p ≡ 1
      → p < p'
      → p' ≤ p + grain align
      → p' % grain align ≡ 0
      → IsScanned bitmap align count p' (record { start = p'; length = 0 })
  restart-IsScanned {p} {p'} v taken lt near a' = record {
    here = omega arith;
    short = pos;
    aligned = a';
    free = λ q lo hi. absurd (omega arith);
    behind = inr (p, near, lt, taken);
    none_before = λ s a h. elim (dec_lt p (s + count)) [
      | no old ↦ v.none_before s a (omega arith)
      | yes new ↦
          let gap : s + grain align ≤ p' = multiple_gap align s p' a a' (omega arith) in
          (p, omega arith, new, taken)
    ];
  }

  -- One pass of the inner loop's body.
  abbrev VisitPost : ℕ → ℕ → ℕ × Cursor → Type 0
  VisitPost i bit step =
      ((step.1.length == count) ≡ true)
        × IsFirstFit bitmap align count step.1
        × (step.1.start + step.1.length ≤ i * 32 + 32)
      ⊎ ((step.1.length == count) ≡ false)
        × (step.0 ≤ bit)
        × IsScanned bitmap align count (i * 32 + 32 - step.0) step.1

  visit_clear :
      (i bit : ℕ) (c : Cursor)
      → bit < 32
      → IsScanned bitmap align count (i * 32 + 31 - bit) c
      → test_bit (get_or bitmap i 0) bit ≡ 0
      → VisitPost i bit (visit align (get_or bitmap i 0) i bit c)
  visit_clear i bit c h v clear =
      let at : bit_at bitmap (i * 32 + 31 - bit) ≡ 0 =
        bit_at_word bitmap i bit (i * 32 + 31 - bit) h (omega arith) ∙ clear in
      let after : i * 32 + 31 - bit + 1 ≡ i * 32 + 32 - bit = omega arith in
      rw (visit-clear align (get_or bitmap i 0) i bit c h clear)
        (elim (ℕ_discrete (c.length + 1) count) [
          | yes e ↦ inl ((==_iff _ _).1 e, extend-IsFirstFit v at e, omega (arith, v.here))
          | no ne ↦ inr (
            ground arith,
            omega arith,
            subst
                (λ p.
                  IsScanned bitmap align count p
                    (record { start = c.start; length = c.length + 1 }))
                after (extend-IsScanned v at (omega (arith, v.short))),
          )
        ])

  visit_taken :
      (i bit : ℕ) (c : Cursor)
      → bit < 32
      → IsScanned bitmap align count (i * 32 + 31 - bit) c
      → test_bit (get_or bitmap i 0) bit ≡ 1
      → VisitPost i bit (visit align (get_or bitmap i 0) i bit c)
  visit_taken i bit c h v taken =
      let at : bit_at bitmap (i * 32 + 31 - bit) ≡ 1 =
        bit_at_word bitmap i bit (i * 32 + 31 - bit) h (omega arith) ∙ taken in
      rw (visit-taken align (get_or bitmap i 0) i bit c h taken) (
        inr (
          ground arith,
          kept_le align bit,
          restart-IsScanned v at (omega (arith, kept_le align bit)) (kept_near align i bit h)
              (kept_aligned align i bit h),
        ))

  visit-VisitPost :
      (i bit : ℕ) (c : Cursor)
      → bit < 32
      → IsScanned bitmap align count (i * 32 + 31 - bit) c
      → VisitPost i bit (visit align (get_or bitmap i 0) i bit c)
  visit-VisitPost i bit c h v = elim (ℕ_discrete (test_bit (get_or bitmap i 0) bit) 0) [
    | yes clear ↦ visit_clear i bit c h v clear
    | no ne ↦ visit_taken i bit c h v (omega (arith, test_bit-lt (get_or bitmap i 0) bit))
  ]

  scan_bits-ScanPost :
      (i fuel left : ℕ) (c : Cursor)
      → left ≤ 32
      → left ≤ fuel
      → IsScanned bitmap align count (i * 32 + 32 - left) c
      → ScanPost bitmap align count
          (i * 32 + 32)
          (scan_bits align count (get_or bitmap i 0) i fuel left c)
  unfolding scan_bits
  scan_bits-ScanPost i fuel zero c h enough v =
      let whole : i * 32 + 32 - 0 ≡ i * 32 + 32 = omega arith in rw whole at v
  scan_bits-ScanPost i zero (suc bit) c h enough v = absurd (omega arith)
  scan_bits-ScanPost i (suc fuel) (suc bit) c h enough v =
      let position : i * 32 + 32 - suc bit ≡ i * 32 + 31 - bit = omega arith in
      elim (visit-VisitPost i bit c (omega arith) (rw position at v)) [
        | inl (e, fits, inside) ↦ rw e (fits, inside)
        | inr (e, le, v') ↦ rw e (scan_bits-ScanPost i fuel _ _ (omega arith) (omega arith) v')
      ]

  scan_words-ScanPost :
      (left i end : ℕ) (c : Cursor)
      → i + left ≡ end
      → end ≤ length bitmap
      → IsScanned bitmap align count (i * 32) c
      → ScanPost bitmap align count (end * 32) (scan_words bitmap align count left i c)
  unfolding scan_words
  scan_words-ScanPost zero i end c e h v =
      let same : i * 32 ≡ end * 32 = omega arith in rw same at v
  scan_words-ScanPost (suc left) i end c e h v = rw (get_elem?-eq-get_or bitmap i 0 (omega arith)) (
      go (scan_bits align count (get_or bitmap i 0) i 32 32 c) word
        (λ c' v'. scan_words-ScanPost left (i + 1) end c' (omega arith) h v'))
    where
      here : i * 32 + 32 - 32 ≡ i * 32
      here = omega arith

      word :
          ScanPost bitmap align count
            (i * 32 + 32)
            (scan_bits align count (get_or bitmap i 0) i 32 32 c)
      word = scan_bits-ScanPost i 32 32 c (omega arith) (omega arith) (rw here v)

      further : i * 32 + 32 ≡ (i + 1) * 32
      further = omega arith

      go :
          (r : Outcome ScanResult)
          → ScanPost bitmap align count (i * 32 + 32) r
          → ((c' : Cursor)
              → IsScanned bitmap align count ((i + 1) * 32) c'
              → ScanPost bitmap align count
                  (end * 32)
                  (scan_words bitmap align count left (i + 1) c'))
          → ScanPost bitmap align count (end * 32) (
              r >>= λ s. elim s [
                | found c' ↦ ok (found c')
                | next c' ↦ scan_words bitmap align count left (i + 1) c'
              ])
      go (ok (found c')) p k = (p.0, omega arith)
      go (ok (next c')) p k = k c' (rw further at p)
      go panicked p k = absurd p
      go fault p k = absurd p
      go diverges p k = absurd p

  IsScanned-start : IsScanned bitmap align count (0 * 32) cursor_zero
  IsScanned-start = record {
    here = refl;
    short = pos;
    aligned = zero_aligned align;
    free = λ q lo hi. absurd (omega arith);
    behind = inl refl;
    none_before = λ s a h. absurd (omega arith);
  }

  -- The scan of the first `words` words of a bitmap that holds them.
  pub scan-ScanPost :
      (words : ℕ)
      → words ≤ length bitmap
      → ScanPost bitmap align count (words * 32) (scan_words bitmap align count words 0 cursor_zero)
  scan-ScanPost words h =
      scan_words-ScanPost words 0 words cursor_zero (omega arith) h IsScanned-start
