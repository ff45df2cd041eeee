-- ===== src/Fs/Create/Close.antt =====
-- `close` of src/fs.c.
use yo_rha.Base.{
  ℕ, ◌+◌, ◌<◌, ◌≡◌, refl, ap, ◌∙◌, [], ◌∷◌, arith, false, ◌==◌, if◌then◌else◌, length,
}
use yo_rha.Base.Outcome.{ok, bind_ok}
use yo_rha.Bitmap.{BitRange, bit_at, dealloc_bitrange}
use yo_rha.Bitmap.Apply.{IsApplied, apply_bitrange-IsApplied}
use yo_rha.Fs.State.{FileSystem, minus_one}
use yo_rha.Fs.Create.{close}

-- `close` of a descriptor below 31, on the bitmap of one word, frees its bit and no other; -1 is
-- returned all the same.
pub close-frees :
    (fs : FileSystem) (fd w : ℕ)
    → fd < 31
    → fs.fd_bitmap ≡ w ∷ []
    → (out : FileSystem) × (close fs fd ≡ ok (minus_one, out))
      × ((p : ℕ) → bit_at out.fd_bitmap p ≡ (if p == fd then 0 else bit_at fs.fd_bitmap p))
      × (out.fd_entries ≡ fs.fd_entries)
close-frees fs fd w small one =
    let range : BitRange = record { start = fd; length = 1 } in
    let words : length fs.fd_bitmap ≡ 1 = ap length one in
    let cleared : IsApplied fd (fd + 1) false fs.fd_bitmap (dealloc_bitrange fs.fd_bitmap range) =
      unfold dealloc_bitrange in
      apply_bitrange-IsApplied fs.fd_bitmap range false (omega arith) (omega (arith, words))
        (omega arith) in
    (
      record fs { fd_bitmap = cleared.out },
      (unfold close in rw (cleared.returns) (refl)),
      (λ p. cleared.bits p ∙ ground arith),
      refl,
    )

-- `close` changes the bitmap of the descriptors alone.
pub close_lem :
    (fs : FileSystem) (fd : ℕ) (r : ℕ × FileSystem)
    → close fs fd ≡ ok r
    → r.1 ≡ record fs { fd_bitmap = r.1.fd_bitmap }
unfolding close
close_lem fs fd r e =
    let b =
      bind_ok (dealloc_bitrange fs.fd_bitmap (record { start = fd; length = 1 }))
        (λ fd_bitmap. ok (minus_one, record fs { fd_bitmap = fd_bitmap })) r e in
    cc (b.2)
