-- ===== src/Ata/Wait.antt =====
-- The loops that wait for the disk.
use Prim.Native.Nat.{bit_and}
use yo_rha.Base.{ℕ, zero, suc, ◌<◌, ◌≡◌, ◌≢◌, refl, arith, true, false, ◌==◌}
use yo_rha.Base.Outcome.{ok, diverges}
use yo_rha.Port.{Ports}
use yo_rha.Ata.{reg_status, sr_busy, sr_data_request, ata_wait_ready, wait_data}

module _ {D : Type 0} (ports : Ports D) where
  -- The device after `n` questions, and its answer to the next one.
  abbrev pub polled : ℕ → D → D
  polled zero d = d
  polled (suc n) d = polled n (ports.inb d reg_status).1

  abbrev pub status : ℕ → D → ℕ
  status n d = (ports.inb (polled n d) reg_status).0

  -- The device is busy for `n` answers, and not in the next one.
  pub record IsReadyAfter (n : ℕ) (d : D) : Type 0 where
    pub busy : (k : ℕ) → k < n → bit_and (status k d) sr_busy ≢ 0
    pub idle : bit_and (status n d) sr_busy ≡ 0

  -- The device does not ask for data in `n` answers, and does in the next one.
  pub record IsAskingAfter (n : ℕ) (d : D) : Type 0 where
    pub silent : (k : ℕ) → k < n → bit_and (status k d) sr_data_request ≡ 0
    pub asking : bit_and (status n d) sr_data_request ≢ 0

  -- The wait ends when the device is ready, if the fuel lasts that long.
  pub ata_wait_ready_lem :
      (fuel n : ℕ) (d : D)
      → n < fuel
      → IsReadyAfter n d
      → ata_wait_ready ports fuel d ≡ ok (polled (suc n) d)
  unfolding ata_wait_ready
  ata_wait_ready_lem zero n d lt r = absurd (omega arith)
  ata_wait_ready_lem (suc fuel) zero d lt r =
      let test : (bit_and (status 0 d) sr_busy == 0) ≡ true = ground (arith, r.idle) in
      rw test (refl)
  ata_wait_ready_lem (suc fuel) (suc n) d lt r =
      let first = r.busy 0 (omega arith) in
      let test : (bit_and (status 0 d) sr_busy == 0) ≡ false = ground (arith, first) in
      rw test (
        ata_wait_ready_lem fuel n (ports.inb d reg_status).1 (omega arith)
          (record { busy = λ k lt. r.busy (suc k) (omega arith); idle = r.idle }))

  -- A device that is busy for ever is waited for, for ever.
  pub ata_wait_ready-diverges :
      (fuel : ℕ) (d : D)
      → ((k : ℕ) → bit_and (status k d) sr_busy ≢ 0)
      → ata_wait_ready ports fuel d ≡ diverges
  unfolding ata_wait_ready
  ata_wait_ready-diverges zero d busy = refl
  ata_wait_ready-diverges (suc fuel) d busy =
      let test : (bit_and (status 0 d) sr_busy == 0) ≡ false = ground (arith, busy 0) in
      rw test (ata_wait_ready-diverges fuel (ports.inb d reg_status).1 (λ k. busy (suc k)))

  pub wait_data_lem :
      (fuel n : ℕ) (d : D)
      → n < fuel
      → IsAskingAfter n d
      → wait_data ports fuel d ≡ ok (polled (suc n) d)
  unfolding wait_data
  wait_data_lem zero n d lt r = absurd (omega arith)
  wait_data_lem (suc fuel) zero d lt r =
      let test : (bit_and (status 0 d) sr_data_request == 0) ≡ false = ground (arith, r.asking) in
      rw test (refl)
  wait_data_lem (suc fuel) (suc n) d lt r =
      let first = r.silent 0 (omega arith) in
      let test : (bit_and (status 0 d) sr_data_request == 0) ≡ true = ground (arith, first) in
      rw test (
        wait_data_lem fuel n (ports.inb d reg_status).1 (omega arith)
          (record { silent = λ k lt. r.silent (suc k) (omega arith); asking = r.asking }))
