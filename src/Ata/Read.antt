-- ===== src/Ata/Read.antt =====
-- A transfer from the disk.
use yo_rha.Base.{
  ℕ, zero, suc, ◌+◌, ◌/◌, ◌%◌, ◌^◌, ◌≤◌, ◌<◌, ◌≡◌, ◌≢◌, refl, sym, ap, ◌∙◌, List, [], ◌∷◌, ◌++◌,
  arith, true, false, ltb, length,
}
use yo_rha.Base.Outcome.{ok, bind_ne_ok}
use yo_rha.Base.Word.{u8}
use yo_rha.Port.{Ports}
use yo_rha.Ata.{reg_data, read_words, read_sectors, send_command, ata_read_sectors, wait_data}
use yo_rha.Ata.Wait.{polled, IsReadyAfter, IsAskingAfter, ata_wait_ready_lem, wait_data_lem}

-- The bytes of words, each the low one first.
abbrev pub word_bytes : List ℕ → List ℕ
word_bytes [] = []
word_bytes (w ∷ ws) = w % 2 ^ 8 ∷ w / 2 ^ 8 % 2 ^ 8 ∷ word_bytes ws

abbrev pub sector_bytes : List (List ℕ) → List ℕ
sector_bytes [] = []
sector_bytes (s ∷ ss) = word_bytes s ++ sector_bytes ss

module _ {D : Type 0} (ports : Ports D) where
  -- The data port gives these words, one after the other.
  abbrev pub Gives : D → List ℕ → D → Type 0
  Gives d [] d' = d ≡ d'
  Gives d (w ∷ ws) d' = ((ports.inw d reg_data).0 ≡ w) × Gives (ports.inw d reg_data).1 ws d'

  -- For each of these sectors the device asks after fewer than `fuel` questions, and then gives the
  -- 256 words.
  pub data Serves (fuel : ℕ) : D → List (List ℕ) → D → Type 0 where
    served : {d : D} → Serves fuel d [] d
    serve :
        {d d2 d3 : D} {words : List ℕ} {sectors : List (List ℕ)} (n : ℕ)
        → n < fuel
        → IsAskingAfter ports n d
        → length words ≡ 256
        → Gives (polled ports (suc n) d) words d2
        → Serves fuel d2 sectors d3
        → Serves fuel d (words ∷ sectors) d3

  read_words_lem :
      (words : List ℕ) (d d' : D)
      → Gives d words d'
      → read_words ports (length words) d ≡ (word_bytes words, d')
  unfolding read_words
  read_words_lem [] d d' g = ap (λ (x : D). ([], x)) g
  read_words_lem (w ∷ ws) d d' g =
      rw (read_words_lem ws (ports.inw d reg_data).1 d' g.1, g.0) (refl)

  read_sectors_step :
      (fuel rounds sector sector_count n : ℕ) (words : List ℕ) (bytes : List ℕ) (d d2 d3 : D)
      → sector < sector_count
      → n < fuel
      → IsAskingAfter ports n d
      → length words ≡ 256
      → Gives (polled ports (suc n) d) words d2
      → read_sectors ports fuel rounds (u8 (sector + 1)) sector_count d2 ≡ ok (bytes, d3)
      → read_sectors ports fuel (suc rounds) sector sector_count d
        ≡ ok (word_bytes words ++ bytes, d3)
  unfolding read_sectors
  read_sectors_step fuel rounds sector sector_count n words bytes d d2 d3 more lt asks whole gives
        rest =
      let test : ltb sector sector_count ≡ true = ground arith in
      let given : read_words ports 256 (polled ports (suc n) d) ≡ (word_bytes words, d2) =
        ap (λ (k : ℕ). read_words ports k (polled ports (suc n) d)) (sym whole)
        ∙ read_words_lem words (polled ports (suc n) d) d2 gives in
      rw (test, wait_data_lem ports fuel n d lt asks, given, rest) (refl)

  read_sectors_lem :
      (fuel rounds sector sector_count : ℕ) {sectors : List (List ℕ)} {d d' : D}
      → sector_count < 256
      → sector + length sectors ≡ sector_count
      → length sectors < rounds
      → Serves fuel d sectors d'
      → read_sectors ports fuel rounds sector sector_count d ≡ ok (sector_bytes sectors, d')
  unfolding read_sectors
  read_sectors_lem fuel zero sector sector_count small whole enough s = absurd (omega arith)
  read_sectors_lem fuel (suc rounds) sector sector_count small whole enough served =
      let test : ltb sector sector_count ≡ false = ground arith in rw test (refl)
  read_sectors_lem fuel (suc rounds) sector sector_count small whole enough
        (serve {d} {d2} {d3} {words} {sectors} n lt asks long gives rest) =
      let next : (sector + 1) % 2 ^ 8 ≡ sector + 1 = omega arith in
      read_sectors_step fuel rounds sector sector_count n words (sector_bytes sectors) d d2 d3
        (omega arith) lt asks long gives
        (rw next (
          read_sectors_lem fuel rounds (sector + 1) sector_count small (omega arith) (omega arith)
            rest))

  -- A read of at most 255 sectors ends, and returns the bytes of the sectors that the device gives:
  -- if it is ready after fewer questions than the fuel, before the command and after it, and then
  -- serves that many sectors.
  pub ata_read_sectors_lem :
      (fuel rounds n m lba : ℕ) (d d' : D) (sectors : List (List ℕ))
      → n < fuel
      → IsReadyAfter ports n d
      → m < fuel
      → length sectors < 256
      → length sectors < rounds
      → let ready = polled ports (suc n) d in
        let sent = send_command ports ready lba (length sectors) 0x20 in
        IsReadyAfter ports m sent
        → Serves fuel (polled ports (suc m) sent) sectors d'
        → ata_read_sectors ports fuel rounds d lba (length sectors) ≡ ok (sector_bytes sectors, d')
  ata_read_sectors_lem fuel rounds n m lba d d' sectors lt ready lt' small enough ready' serves =
      unfold ata_read_sectors in
      rw (ata_wait_ready_lem ports fuel n d lt ready, ata_wait_ready_lem ports fuel m _ lt' ready')
        (read_sectors_lem fuel rounds 0 (length sectors) small (omega arith) enough serves)

  -- With 256 sectors or more the counter of the loop starts again before it gets there: the loop
  -- does not return, whatever the device does.
  pub read_sectors-ne-ok :
      (fuel rounds sector sector_count : ℕ) (d : D) (result : List ℕ × D)
      → 256 ≤ sector_count
      → sector < 256
      → read_sectors ports fuel rounds sector sector_count d ≢ ok result
  unfolding read_sectors
  read_sectors-ne-ok fuel zero sector sector_count d result large small = λ e. cc
  read_sectors-ne-ok fuel (suc rounds) sector sector_count d result large small =
      let test : ltb sector sector_count ≡ true = ground arith in
      let round : u8 (sector + 1) < 256 = omega arith in
      rw test (
        bind_ne_ok (wait_data ports fuel d) _ result (λ (d1 : D) _.
          (bind_ne_ok
            (read_sectors ports fuel rounds (u8 (sector + 1)) sector_count
              (read_words ports 256 d1).1)
            _ result
            (λ (rest : List ℕ × D) e. absurd (
              read_sectors-ne-ok fuel rounds (u8 (sector + 1)) sector_count _ rest large round
                e)))))
