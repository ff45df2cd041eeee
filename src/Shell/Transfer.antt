-- ===== src/Shell/Transfer.antt =====
-- `exec_sget` of src/kernel.c: a file received over the serial port. The timer's counter, which
-- interrupts advance, is read like a device.
use yo_rha.Base.{
  ℕ, zero, suc, ◌+◌, List, [], ◌∷◌, ◌++◌, Bool, true, false, ltb, leb, ◌==◌, if◌then◌else◌, length,
  replicate, take,
}
use yo_rha.Base.Outcome.{Outcome, ok, fault, diverges, ◌>>=◌}
use yo_rha.Base.Word.{u8, add64}
use yo_rha.Port.{Ports}
use yo_rha.Printf.{number, fmt}
use yo_rha.Strings.Growing.{Growing}
use yo_rha.Strings.Split.{Text}
use yo_rha.Fs.State.{minus_one, transfer_timed_out}
use yo_rha.Fs.Path.{store_char, push_error}
use yo_rha.System.{System, read, write}
use yo_rha.Shell.{stdout, word, with_fs, open_path, close_fd, say_literal, say}

abbrev serial : ℕ
serial = 1

-- `(uint32_t)(5.0 * 100)`
abbrev time_out_duration : ℕ
time_out_duration = 500

-- The locals of `exec_sget`.
pub record Transfer (D : Type 0) : Type 0 where
  pub sys : System D
  pub bytes_read : ℕ
  pub file_size : List ℕ
  pub in_message : Bool
  pub base_time : ℕ

-- `stack` is what `fmt` finds in its arrays, `address` that of the array `file_size`, and `fuel` the
-- number of rounds of each loop.
module _ {D : Type 0} (junk : ℕ → List ℕ) (ports : Ports D) (timer : D → ℕ × D) (stack : List ℕ)
    (address fuel : ℕ) where
  look : System D → ℕ × System D
  look k = let t = timer k.device in (t.0, record k { device = t.1 })

  -- The loop that stores the bytes of the size.
  pub collect_size : ℕ → Transfer D → Outcome (Transfer D)
  collect_size zero tr = diverges
  collect_size (suc left) tr = read ports tr.sys serial 1 >>= λ (r : List ℕ × System D). elim r.0 [
    | [] ↦ ok (record tr { sys = r.1 })
    | c ∷ cs ↦ store_char tr.file_size tr.bytes_read c >>= λ file_size.
        collect_size left
          (record tr { sys = r.1; file_size = file_size; bytes_read = u8 (tr.bytes_read + 1) })
  ]

  -- The array `buf` has 12 bytes, and 15 of them are written to the terminal.
  announce : Transfer D → Outcome (Transfer D)
  announce tr =
      say_literal junk ports tr.sys stdout
        (b'b' ∷ b'e' ∷ b'g' ∷ b'i' ∷ b'n' ∷ b'n' ∷ b'i' ∷ b'n' ∷ b'g' ∷ b' ' ∷ b'd' ∷ b'o' ∷ b'w'
          ∷ b'n' ∷ b'l' ∷ b'o' ∷ b'a' ∷ b'd' ∷ b' ' ∷ b'f' ∷ b'i' ∷ b'l' ∷ b'e' ∷ b' ' ∷ b'o' ∷ b'f'
          ∷ b' ' ∷ b's' ∷ b'i' ∷ b'z' ∷ b'e' ∷ b' ' ∷ [])
        33
      >>= λ k1.
          fmt stack (replicate 12 0) (b'%' ∷ b'x' ∷ b'.' ∷ b'.' ∷ b'.' ∷ 10 ∷ [] ++ 0 ∷ [])
            (number address ∷ [])
          >>= λ buf. (if leb 15 (length buf) then ok (take 15 buf) else fault) >>= λ shown.
              say junk ports k1 stdout shown >>= λ k2.
              ok (record tr { sys = k2; in_message = true; bytes_read = 0 })

  -- The part of a round before the message.
  pub receive_size : Transfer D → Outcome (Transfer D)
  receive_size tr =
      let waiting = collect_size fuel tr >>= λ tr1.
      (let begun = announce tr1 in if tr1.bytes_read == 4 then begun else ok tr1) in
      if tr.in_message then ok tr else waiting

  -- `while (!write(fd, &c, 1));`
  pub write_byte : ℕ → ℕ → ℕ → System D → Outcome (System D)
  write_byte zero fd c k = diverges
  write_byte (suc left) fd c k = write ports k fd (c ∷ []) >>= λ (r : ℕ × System D).
      (let again = write_byte left fd c r.1 in if r.0 == 0 then again else ok r.1)

  -- The loop over the bytes of the message: `true` if the download is complete. The number of bytes
  -- is compared with the address of the array that holds the size.
  pub receive_data : ℕ → ℕ → Transfer D → Outcome (Bool × Transfer D)
  receive_data zero fd tr = diverges
  receive_data (suc left) fd tr =
      let next = read ports tr.sys serial 1 >>= λ (r : List ℕ × System D). elim r.0 [
        | [] ↦ ok (false, record tr { sys = r.1 })
        | c ∷ cs ↦
            let now = look r.1 in
            let bytes_read = u8 (tr.bytes_read + 1) in
            write_byte fuel fd c now.1 >>= λ k1.
            (let tr1 : Transfer D = record tr {
              sys = k1;
              base_time = now.0;
              bytes_read = bytes_read;
            } in
              let complete =
                say_literal junk ports k1 stdout
                  (b'd' ∷ b'o' ∷ b'w' ∷ b'n' ∷ b'l' ∷ b'o' ∷ b'a' ∷ b'd' ∷ b' ' ∷ b'c' ∷ b'o' ∷ b'm'
                    ∷ b'p' ∷ b'l' ∷ b'e' ∷ b't' ∷ b'e' ∷ b'd' ∷ b'.' ∷ b'.' ∷ b'.' ∷ 10 ∷ [])
                  23
                >>= λ k2. ok (true, record tr1 { sys = k2 }) in
              let more = receive_data left fd tr1 in
              if bytes_read == address then complete else more)
      ] in
      if tr.in_message then next else ok (false, tr)

  -- The endless loop of `exec_sget`.
  pub sget_loop : ℕ → ℕ → Transfer D → Outcome (ℕ × System D)
  sget_loop zero fd tr = diverges
  sget_loop (suc left) fd tr =
      let now = look tr.sys in
      let timed_out =
        close_fd junk ports (with_fs now.1 (push_error now.1.fs transfer_timed_out)) fd >>= λ k1.
        ok (minus_one, k1) in
      let round = receive_size (record tr { sys = now.1 }) >>= λ tr1.
      receive_data fuel fd tr1 >>= λ (r : Bool × Transfer D).
      (let more = sget_loop left fd r.1 in if r.0 then ok (0, r.1.sys) else more) in
      if ltb (add64 tr.base_time time_out_duration) now.0 then timed_out else round

  pub exec_sget : Growing Text → System D → Outcome (ℕ × System D)
  exec_sget cmd k = word cmd 1 >>= λ path. open_path junk ports k path >>= λ (f : ℕ × System D).
      (let opened =
          say_literal junk ports f.1 stdout
            (b'w' ∷ b'a' ∷ b'i' ∷ b't' ∷ b'i' ∷ b'n' ∷ b'g' ∷ b' ' ∷ b'f' ∷ b'o' ∷ b'r' ∷ b' '
              ∷ b's' ∷ b'e' ∷ b'r' ∷ b'i' ∷ b'a' ∷ b'l' ∷ b' ' ∷ b'p' ∷ b'o' ∷ b'r' ∷ b't' ∷ b' '
              ∷ b't' ∷ b'o' ∷ b' ' ∷ b'i' ∷ b'n' ∷ b'i' ∷ b't' ∷ b'i' ∷ b'a' ∷ b't' ∷ b'e' ∷ b' '
              ∷ b'c' ∷ b'o' ∷ b'm' ∷ b'm' ∷ b'u' ∷ b'n' ∷ b'i' ∷ b'c' ∷ b'a' ∷ b't' ∷ b'i' ∷ b'o'
              ∷ b'n' ∷ b'.' ∷ b'.' ∷ b'.' ∷ 10 ∷ [])
            54
          >>= λ k1.
              (let now = look k1 in
                sget_loop fuel f.0 (record {
                  sys = now.1;
                  bytes_read = 0;
                  file_size = replicate 4 0;
                  in_message = false;
                  base_time = now.0;
                })) in
        if f.0 == minus_one then ok (minus_one, f.1) else opened)
