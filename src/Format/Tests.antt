-- ===== src/Format/Tests.antt =====
-- A formatted word.
use yo_rha.Base.{◌≡◌, refl, [], ◌∷◌, replicate}
use yo_rha.Base.Outcome.{ok}
use yo_rha.Format.{
  write_chars, hex_bytes, hex_words, bin_bits, buff_to_hexstring, buff_to_binstring,
}

dead_beef :
    buff_to_hexstring (0xdead_beef ∷ []) (replicate 9 0)
    ≡ ok (b'D' ∷ b'E' ∷ b'A' ∷ b'D' ∷ b'B' ∷ b'E' ∷ b'E' ∷ b'F' ∷ 0 ∷ [])
unfolding buff_to_hexstring hex_words hex_bytes write_chars
dead_beef = refl

-- Of two words only the last one is left.
bin_overwrites : buff_to_binstring (0 ∷ 0xffff_ffff ∷ []) (replicate 32 0) ≡ ok (replicate 32 b'1')
unfolding buff_to_binstring bin_bits write_chars
bin_overwrites = refl
