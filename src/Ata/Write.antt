-- ===== src/Ata/Write.antt =====
-- A transfer to the disk.
use Prim.Native.Nat.{bit_or}
use mathlib.Core.List.{append_assoc}
use yo_rha.Base.{
  ℕ, zero, suc, ◌+◌, ◌*◌, ◌/◌, ◌%◌, ◌^◌, ◌<◌, ◌≡◌, refl, sym, ap, ◌∙◌, List, [], ◌∷◌, ◌++◌, arith,
  true, false, ltb, length, length-append, get_elem?, get_elem?-append, some,
}
use yo_rha.Base.Outcome.{ok}
use yo_rha.Base.Bits.{bit_or-fields}
use yo_rha.Base.Word.{u8, u16}
use yo_rha.Port.{Ports}
use yo_rha.Ata.{
  reg_data, word_at, write_words, write_sectors, send_command, ata_write_sectors, ata_cache_flush,
}
use yo_rha.Ata.Wait.{polled, IsReadyAfter, IsAskingAfter, ata_wait_ready_lem, wait_data_lem}
use yo_rha.Ata.Read.{word_bytes, sector_bytes}

-- The words are 16-bit numbers.
abbrev pub AreWords : List ℕ → Type 0
AreWords [] = Unit
AreWords (w ∷ ws) = (w < 2 ^ 16) × AreWords ws

pub length-word_bytes : (ws : List ℕ) → length (word_bytes ws) ≡ 2 * length ws
length-word_bytes [] = refl
length-word_bytes (w ∷ ws) = omega (arith, length-word_bytes ws)

word_at_lem :
    (before after : List ℕ) (w i : ℕ)
    → i ≡ length before
    → w < 2 ^ 16
    → word_at (before ++ w % 2 ^ 8 ∷ w / 2 ^ 8 % 2 ^ 8 ∷ after) i ≡ ok w
unfolding word_at
word_at_lem before after w i at small =
    let bytes = w % 2 ^ 8 ∷ w / 2 ^ 8 % 2 ^ 8 ∷ after in
    let low : get_elem? (before ++ bytes) i ≡ some (w % 2 ^ 8) =
      get_elem?-append before bytes 0 i (omega arith) in
    let high : get_elem? (before ++ bytes) (i + 1) ≡ some (w / 2 ^ 8 % 2 ^ 8) =
      get_elem?-append before bytes 1 (i + 1) (omega arith) in
    let whole : u16 (bit_or (w / 2 ^ 8 % 2 ^ 8 * 2 ^ 8) (w % 2 ^ 8)) ≡ w =
      rw (bit_or-fields 8 (w / 2 ^ 8 % 2 ^ 8) (w % 2 ^ 8) (omega arith)) (omega arith) in
    rw (low, high) (ap ok whole)

module _ {D : Type 0} (ports : Ports D) where
  -- The device after it took these words at its data port.
  abbrev pub sent : List ℕ → D → D
  sent [] d = d
  sent (w ∷ ws) d = sent ws (ports.write_word d reg_data w)

  -- For each of these sectors the device asks after fewer than `fuel` questions, and then takes
  -- the 256 words.
  pub data Takes (fuel : ℕ) : D → List (List ℕ) → D → Type 0 where
    taken : {d : D} → Takes fuel d [] d
    taking :
        {d d' : D} {words : List ℕ} {sectors : List (List ℕ)} (n : ℕ)
        → n < fuel
        → IsAskingAfter ports n d
        → length words ≡ 256
        → AreWords words
        → Takes fuel (sent words (polled ports (suc n) d)) sectors d'
        → Takes fuel d (words ∷ sectors) d'

  write_words_lem :
      (words before after : List ℕ) (i : ℕ) (d : D)
      → AreWords words
      → i ≡ length before
      → write_words ports (length words) (before ++ (word_bytes words ++ after)) i d
        ≡ ok (sent words d)
  unfolding write_words
  write_words_lem [] before after i d small at = refl
  write_words_lem (w ∷ ws) before after i d small at =
      let first : word_at (before ++ (word_bytes (w ∷ ws) ++ after)) i ≡ ok w =
        word_at_lem before (word_bytes ws ++ after) w i at small.0 in
      let moved : before ++ (word_bytes (w ∷ ws) ++ after)
          ≡ (before ++ w % 2 ^ 8 ∷ w / 2 ^ 8 % 2 ^ 8 ∷ []) ++ (word_bytes ws ++ after) =
        sym (append_assoc before (w % 2 ^ 8 ∷ w / 2 ^ 8 % 2 ^ 8 ∷ []) (word_bytes ws ++ after)) in
      let rest =
        write_words_lem ws (before ++ w % 2 ^ 8 ∷ w / 2 ^ 8 % 2 ^ 8 ∷ []) after (i + 2)
          (ports.write_word d reg_data w) small.1
          (omega (arith, length-append before (w % 2 ^ 8 ∷ w / 2 ^ 8 % 2 ^ 8 ∷ []))) in
      rw (first, moved) rest

  write_sectors_step :
      (fuel rounds sector sector_count n : ℕ) (words before after : List ℕ) (d : D)
      → sector < sector_count
      → n < fuel
      → IsAskingAfter ports n d
      → length words ≡ 256
      → AreWords words
      → sector * 512 ≡ length before
      → let buffer = before ++ (word_bytes words ++ after) in
        write_sectors ports fuel (suc rounds) sector sector_count buffer d
        ≡ write_sectors ports fuel rounds
            (u8 (sector + 1))
            sector_count
            buffer
            (sent words (polled ports (suc n) d))
  unfolding write_sectors
  write_sectors_step fuel rounds sector sector_count n words before after d more lt asks whole small
        at =
      let buffer = before ++ (word_bytes words ++ after) in
      let test : ltb sector sector_count ≡ true = ground arith in
      let written : write_words ports 256 buffer (sector * 512) (polled ports (suc n) d)
          ≡ ok (sent words (polled ports (suc n) d)) =
        ap (λ (k : ℕ). write_words ports k buffer (sector * 512) (polled ports (suc n) d))
          (sym whole)
        ∙ write_words_lem words before after (sector * 512) (polled ports (suc n) d) small at in
      rw (test, wait_data_lem ports fuel n d lt asks, written) (refl)

  write_sectors_lem :
      (fuel rounds sector sector_count : ℕ) (before : List ℕ) {sectors : List (List ℕ)} {d d' : D}
      → sector_count < 256
      → sector + length sectors ≡ sector_count
      → length sectors < rounds
      → sector * 512 ≡ length before
      → Takes fuel d sectors d'
      → write_sectors ports fuel rounds sector sector_count (before ++ sector_bytes sectors) d
        ≡ ok d'
  unfolding write_sectors
  write_sectors_lem fuel zero sector sector_count before small whole enough at t =
      absurd (omega arith)
  write_sectors_lem fuel (suc rounds) sector sector_count before small whole enough at taken =
      let test : ltb sector sector_count ≡ false = ground arith in rw test (refl)
  write_sectors_lem fuel (suc rounds) sector sector_count before small whole enough at
        (taking {d} {d'} {words} {sectors} n lt asks long words_small rest) =
      let next : u8 (sector + 1) ≡ sector + 1 = omega arith in
      let grown : length (before ++ word_bytes words) ≡ length before + 512 =
        omega (arith, length-append before (word_bytes words), length-word_bytes words) in
      let further =
        write_sectors_lem fuel rounds (sector + 1) sector_count (before ++ word_bytes words) small
          (omega arith) (omega arith) (omega arith) rest in
      write_sectors_step fuel rounds sector sector_count n words before (sector_bytes sectors) d
        (omega arith) lt asks long words_small at
      ∙ rw (next, sym (append_assoc before (word_bytes words) (sector_bytes sectors))) further

  -- A write of at most 255 sectors ends, and the device takes the words of the buffer in their order:
  -- if it is ready after fewer questions than the fuel, takes the sectors, and is ready again before
  -- and after the command that flushes its cache.
  pub ata_write_sectors_lem :
      (fuel rounds n m k lba : ℕ) (d d' : D) (sectors : List (List ℕ))
      → n < fuel
      → IsReadyAfter ports n d
      → length sectors < 256
      → length sectors < rounds
      → Takes fuel
          (send_command ports (polled ports (suc n) d) lba (length sectors) 0x30)
          sectors
          d'
      → m < fuel
      → IsReadyAfter ports m d'
      → let flushed = ports.write_byte (polled ports (suc m) d') 0x1f7 0xe7 in
        k < fuel
        → IsReadyAfter ports k flushed
        → ata_write_sectors ports fuel rounds d lba (length sectors) (sector_bytes sectors)
          ≡ ok (polled ports (suc k) flushed)
  ata_write_sectors_lem fuel rounds n m k lba d d' sectors lt ready small enough takes lt' ready'
        lt'' ready'' =
      unfold ata_write_sectors ata_cache_flush in
      rw
        (
          ata_wait_ready_lem ports fuel n d lt ready,
          write_sectors_lem fuel rounds 0 (length sectors) [] small (omega arith) enough
              (omega arith) takes,
          ata_wait_ready_lem ports fuel m d' lt' ready',
        )
        (ata_wait_ready_lem ports fuel k _ lt'' ready'')
