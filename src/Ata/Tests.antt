-- ===== src/Ata/Tests.antt =====
-- A disk that is busy for one answer in two, and whose words count up.
use Prim.Native.Nat.{bit_and}
use yo_rha.Base.{
  ℕ, zero, suc, ◌+◌, ◌≤◌, ◌<◌, ◌≡◌, ◌≢◌, refl, ap, List, [], ◌∷◌, arith, length, if◌then◌else◌,
  ◌==◌, ◌%◌, ◌^◌, false, true,
}
use yo_rha.Base.Outcome.{ok}
use yo_rha.Port.{Ports}
use yo_rha.Ata.{
  sr_busy, sr_data_request, send_command, ata_read_sectors, ata_write_sectors, read_sectors,
}
use yo_rha.Ata.Wait.{status, IsReadyAfter, IsAskingAfter}
use yo_rha.Ata.Read.{Gives, served, serve, sector_bytes, ata_read_sectors_lem, read_sectors-ne-ok}
use yo_rha.Ata.Write.{AreWords, sent, taken, taking, ata_write_sectors_lem}

pub record Disk : Type 0 where
  pub answers : ℕ
  pub next : ℕ
  pub log : List ℕ

abbrev disk : Ports Disk
disk = record {
  inb = λ d port. (
    if d.answers % 2 == 0 then 0x80 else 0x08,
    record { answers = suc d.answers; next = d.next; log = d.log },
  );
  inw = λ d port. (d.next, record { answers = d.answers; next = suc d.next; log = d.log });
  write_byte = λ d port x. d;
  write_word = λ d port x. record { answers = d.answers; next = d.next; log = x ∷ d.log };
}

abbrev at_start : Disk
at_start = record { answers = 0; next = 3; log = [] }

abbrev upto : ℕ → ℕ → List ℕ
upto zero k = []
upto (suc n) k = k ∷ upto n (suc k)

length-upto : (n k : ℕ) → length (upto n k) ≡ n
length-upto zero k = refl
length-upto (suc n) k = ap suc (length-upto n (suc k))

upto-Gives :
    (n k answers : ℕ) (log : List ℕ)
    → Gives disk
        (record { answers = answers; next = k; log = log })
        (upto n k)
        (record { answers = answers; next = n + k; log = log })
upto-Gives zero k answers log =
    ap (λ (x : ℕ). record { answers = answers; next = x; log = log }) (omega arith)
upto-Gives (suc n) k answers log =
    let moved : suc n + k ≡ n + suc k = omega arith in
    (refl, rw moved (upto-Gives n (suc k) answers log))

upto-AreWords : (n k : ℕ) → n + k ≤ 2 ^ 16 → AreWords (upto n k)
upto-AreWords zero k le = tt
upto-AreWords (suc n) k le = (omega arith, upto-AreWords n (suc k) (omega arith))

-- After an even number of answers the next one says busy, and the one behind it asks for data.
abbrev at_answer : ℕ → Disk
at_answer answers = record { answers = answers; next = 3; log = [] }

below_one : (P : ℕ → Type 0) → P 0 → (k : ℕ) → k < 1 → P k
below_one P p zero lt = p
below_one P p (suc k) lt = absurd (omega arith)

IsReadyAfter-odd : (d : Disk) → d.answers % 2 ≡ 0 → IsReadyAfter disk 1 d
IsReadyAfter-odd d even =
    let odd : (suc d.answers % 2 == 0) ≡ false = ground (arith, even) in
    let test : (d.answers % 2 == 0) ≡ true = ground (arith, even) in
    record {
      busy = below_one (λ k. bit_and (status disk k d) sr_busy ≢ 0) (rw test (λ e. ground arith));
      idle = rw odd (refl);
    }

IsAskingAfter-odd : (d : Disk) → d.answers % 2 ≡ 0 → IsAskingAfter disk 1 d
IsAskingAfter-odd d even =
    let odd : (suc d.answers % 2 == 0) ≡ false = ground (arith, even) in
    let test : (d.answers % 2 == 0) ≡ true = ground (arith, even) in
    record {
      silent = below_one (λ k. bit_and (status disk k d) sr_data_request ≡ 0) (rw test (refl));
      asking = rw odd (λ e. ground arith);
    }

ata_read_sectors_lem_example :
    ata_read_sectors disk 5 5 at_start 7 (length (upto 256 3 ∷ []))
    ≡ ok (sector_bytes (upto 256 3 ∷ []), record { answers = 6; next = 259; log = [] })
unfolding send_command
ata_read_sectors_lem_example =
    ata_read_sectors_lem disk 5 5 1 1 7 at_start (record { answers = 6; next = 259; log = [] })
      (upto 256 3 ∷ []) (omega arith) (IsReadyAfter-odd at_start refl) (omega arith) (omega arith)
      (omega arith) (IsReadyAfter-odd (at_answer 2) refl)
      (serve 1 (omega arith) (IsAskingAfter-odd (at_answer 4) refl) (length-upto 256 3)
        (upto-Gives 256 3 6 []) served)

read_sectors-ne-ok_example : read_sectors disk 5 5 0 256 at_start ≢ ok ([], at_answer 9)
read_sectors-ne-ok_example =
    read_sectors-ne-ok disk 5 5 0 256 at_start ([], at_answer 9) (omega arith) (omega arith)

abbrev logged : ℕ → Disk
logged answers = record { answers = answers; next = 3; log = (sent disk (upto 256 3) at_start).log }

ata_write_sectors_lem_example :
    ata_write_sectors disk 5 5 at_start 7
      (length (upto 256 3 ∷ []))
      (sector_bytes (upto 256 3 ∷ []))
    ≡ ok (logged 8)
unfolding send_command
ata_write_sectors_lem_example =
    ata_write_sectors_lem disk 5 5 1 1 1 7 at_start (logged 4) (upto 256 3 ∷ []) (omega arith)
      (IsReadyAfter-odd at_start refl) (omega arith) (omega arith)
      (taking 1 (omega arith) (IsAskingAfter-odd (at_answer 2) refl) (length-upto 256 3)
        (upto-AreWords 256 3 (omega arith)) taken)
      (omega arith) (IsReadyAfter-odd (logged 4) refl) (omega arith)
      (IsReadyAfter-odd (logged 6) refl)
