-- ===== src/System/Tty.antt =====
-- The terminal's special file, from the keyboard's interrupts to `read`.
use yo_rha.Base.{
  ℕ, zero, suc, ◌≡◌, ◌≢◌, refl, ap, ◌∙◌, Bool, true, false, List, [], ◌∷◌, some, arith, ◌==◌,
  get_elem?, length, take, drop, replicate,
}
use yo_rha.Base.Int.{ℤ, pos, negsuc}
use yo_rha.Base.Outcome.{Outcome, ok}
use yo_rha.Cstring.{strcmp}
use yo_rha.Cstring.Laws.{IsText, strcmp_cases}
use yo_rha.Port.{Ports}
use yo_rha.Ring.Refine.{IsRing, contents}
use yo_rha.Ring.Read.{ring_read-IsRead}
use yo_rha.Keyboard.{Keyboard, keyboard_run}
use yo_rha.Keyboard.Decode.{type_keys}
use yo_rha.Keyboard.Refine.{AllBytes, keyboard_run-Typed}
use yo_rha.Fs.State.{FileSystem, FileSystemInode, FileDescriptorEntry}
use yo_rha.System.{
  System, Handler, tty_file, serial_file, system_files, with_handler, handler_read, read,
}

abbrev tty_name : List ℕ
tty_name = b't' ∷ b't' ∷ b'y' ∷ []

-- Descriptor `fd` is open on the terminal's special file.
pub record IsTtyFile (fs : FileSystem) (fd : ℕ) : Type 0 where
  pub entry : FileDescriptorEntry
  pub inode : FileSystemInode
  pub opened : get_elem? fs.fd_entries fd ≡ some entry
  pub known : get_elem? fs.inode_table entry.inode_num ≡ some inode
  pub special : inode.file_type ≡ 2
  pub named : inode.name ≡ tty_file.filename

tty_same : strcmp tty_file.filename tty_file.filename ≡ ok (pos 0)
tty_same =
    let text : IsText tty_name = omega arith in
    let compared = strcmp_cases tty_name tty_name (replicate 28 0) (replicate 28 0) text text in
    compared.1 ∙ ap ok (compared.2.1 refl)

with_handler-tty {ℓ} :
    {A : Type ℓ} (call : Handler → Outcome A) (absent : Outcome A)
    → with_handler system_files tty_file.filename call absent ≡ call Handler.tty_handler
unfolding with_handler
with_handler-tty call absent = rw tty_same (refl)

abbrev serial_name : List ℕ
serial_name = b't' ∷ b't' ∷ b'y' ∷ b'S' ∷ []

-- The first name differs, the second is the same.
pub with_handler-serial {ℓ} :
    {A : Type ℓ} (call : Handler → Outcome A) (absent : Outcome A)
    → with_handler system_files serial_file.filename call absent ≡ call Handler.serial_handler
unfolding with_handler
with_handler-serial call absent =
    let text : IsText tty_name = omega arith in
    let other : IsText serial_name = omega arith in
    let first = strcmp_cases tty_name serial_name (replicate 28 0) (replicate 27 0) text other in
    let second =
      strcmp_cases serial_name serial_name (replicate 27 0) (replicate 27 0) other other in
    let same : strcmp serial_file.filename serial_file.filename ≡ ok (pos 0) =
      second.1 ∙ ap ok (second.2.1 refl) in
    differs first.0 first.1 (λ e. ground (arith, ap (λ (l : List ℕ). length l) (first.2.0 e))) same
  where
    differs :
        (z : ℤ)
        → strcmp tty_file.filename serial_file.filename ≡ ok z
        → z ≢ pos 0
        → strcmp serial_file.filename serial_file.filename ≡ ok (pos 0)
        → with_handler system_files serial_file.filename call absent ≡ call Handler.serial_handler
    differs (pos zero) e ne same = absurd (ne refl)
    differs (pos (suc n)) e ne same =
        let test : (suc n == 0) ≡ false = ground arith in rw (e, test, same) (refl)
    differs (negsuc n) e ne same = rw (e, same) (refl)

module _ {D : Type 0} (ports : Ports D) where
  read_tty :
      (k : System D) (fd count : ℕ)
      → IsTtyFile k.fs fd
      → IsRing k.input
      → (k' : System D) × (read ports k fd count ≡ ok (take count (contents k.input), k'))
        × (contents k'.input ≡ drop count (contents k.input))
  unfolding read handler_read
  read_tty k fd count v ring =
      let r = ring_read-IsRead k.input count ring in
      let test : (v.inode.file_type == 2) ≡ true = ground (arith, v.special) in
      (
        record k { input = r.out },
        rw (v.opened, v.known, test, v.named, with_handler-tty, r.returns) (refl),
        r.rest,
      )

  -- The keyboard's interrupts for any scan codes, and then a `read` from the terminal's descriptor:
  -- both return, the `read` copies the first `count` characters of those that were waiting and those
  -- that the scan codes typed, or all if there are fewer, and the rest goes on waiting.
  pub read-keyboard_run :
      (k : System D) (shift_pressed : Bool) (scancodes : List ℕ) (fd count : ℕ)
      → IsTtyFile k.fs fd
      → IsRing k.input
      → AllBytes scancodes
      → let typed = (type_keys (shift_pressed, contents k.input) scancodes).1 in
        (keyboard : Keyboard) × (k' : System D) × (keyboard_run
            (record { shift_pressed = shift_pressed; input = k.input })
            scancodes
          ≡ ok keyboard)
        × (read ports (record k { input = keyboard.input }) fd count ≡ ok (take count typed, k'))
        × (contents k'.input ≡ drop count typed)
  read-keyboard_run k shift_pressed scancodes fd count v ring bytes =
      let before : Keyboard = record { shift_pressed = shift_pressed; input = k.input } in
      let t = keyboard_run-Typed scancodes before bytes ring in
      let queue = ap (λ (st : Bool × List ℕ). st.1) t.typed in
      let r = read_tty (record k { input = t.out.input }) fd count v t.valid in
      (
        t.out,
        r.0,
        t.returns,
        r.1 ∙ ap (λ (q : List ℕ). ok (take count q, r.0)) queue,
        r.2 ∙ ap (λ (q : List ℕ). drop count q) queue,
      )
