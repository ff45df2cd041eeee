-- ===== src/Shell/Loop.antt =====
-- The loop of `shell` and `main` (src/kernel.c).
use yo_rha.Base.{ℕ, zero, suc, ◌+◌, ◌-◌, List, [], ◌∷◌, true, ltb, ◌==◌, if◌then◌else◌, take}
use yo_rha.Base.Outcome.{Outcome, ok, ◌>>=◌, ◌>>◌, assert}
use yo_rha.Base.Word.{sub32}
use yo_rha.Cstring.{strlen}
use yo_rha.Heap.{AllocArray}
use yo_rha.Port.{Ports}
use yo_rha.Strings.Growing.{Growing, empty, push}
use yo_rha.Strings.Split.{Text, char_size, string_split, free_string, free_string_list}
use yo_rha.Fs.State.{Message, minus_one}
use yo_rha.System.{System, read}
use yo_rha.Shell.{
  stdin, stdout, stderr, word, matches, with_fs, open_path, close_fd, say, say_literal, exec_ls,
  exec_cat, exec_echo, exec_touch, exec_rm, exec_mkdir,
}
use yo_rha.Shell.Transfer.{exec_sget}

pub data Command : Type 0 where
  cmd_exit : Command
  cmd_help : Command
  cmd_ls : Command
  cmd_cat : Command
  cmd_echo : Command
  cmd_touch : Command
  cmd_rm : Command
  cmd_mkdir : Command
  cmd_sget : Command
  cmd_run : Command
  cmd_unknown : Command

-- The chain of PREFIX tests, in the order of the source.
pub command_words : List (List ℕ × Command)
command_words =
    (b'e' ∷ b'x' ∷ b'i' ∷ b't' ∷ [], cmd_exit)
    ∷ (b'h' ∷ b'e' ∷ b'l' ∷ b'p' ∷ [], cmd_help)
    ∷ (b'l' ∷ b's' ∷ [], cmd_ls)
    ∷ (b'c' ∷ b'a' ∷ b't' ∷ [], cmd_cat)
    ∷ (b'e' ∷ b'c' ∷ b'h' ∷ b'o' ∷ [], cmd_echo)
    ∷ (b't' ∷ b'o' ∷ b'u' ∷ b'c' ∷ b'h' ∷ [], cmd_touch)
    ∷ (b'r' ∷ b'm' ∷ [], cmd_rm)
    ∷ (b'm' ∷ b'k' ∷ b'd' ∷ b'i' ∷ b'r' ∷ [], cmd_mkdir)
    ∷ (b's' ∷ b'g' ∷ b'e' ∷ b't' ∷ [], cmd_sget)
    ∷ (b'r' ∷ b'u' ∷ b'n' ∷ [], cmd_run)
    ∷ []

pub find_command : List (List ℕ × Command) → List ℕ → Outcome Command
find_command [] name = ok cmd_unknown
find_command (w ∷ ws) name =
    matches name w.0 >>= λ same. (let rest = find_command ws name in if same then ok w.1 else rest)

-- The locals of `shell`, over the kernel.
pub record Shell (D : Type 0) : Type 0 where
  pub sys : System D
  pub curr_command : Text
  pub working_dir : Text

-- The result of `shell` is always 0.
pub data Step (D : Type 0) : Type 0 where
  running : Shell D → Step D
  exited : System D → Step D

abbrev pub with_heap : {D : Type 0} → System D → AllocArray → System D
with_heap k heap = with_fs k (record k.fs { heap = heap })

-- APPEND of a character.
unfoldable pub add_char : {D : Type 0} → System D → Text → ℕ → Outcome (System D × Text)
add_char k s c =
    push char_size k.fs.heap s c >>= λ (r : AllocArray × Text). ok (with_heap k r.0, r.1)

abbrev prompt : List ℕ
prompt = 10 ∷ b'$' ∷ b' ' ∷ []

abbrev no_parse : List ℕ
no_parse =
    b'C' ∷ b'o' ∷ b'u' ∷ b'l' ∷ b'd' ∷ b'n' ∷ b'\'' ∷ b't' ∷ b' ' ∷ b'p' ∷ b'a' ∷ b'r' ∷ b's' ∷ b'e'
    ∷ b' ' ∷ b'c' ∷ b'o' ∷ b'm' ∷ b'm' ∷ b'a' ∷ b'n' ∷ b'd' ∷ 10 ∷ []

abbrev greater : List ℕ
greater = b'>' ∷ []

-- `message_text` gives the characters of a message with its terminating zero (they name the file
-- and the line); `run` is `exec_run`, which calls machine code; the others belong to `exec_sget`.
module _ {D : Type 0} (junk : ℕ → List ℕ) (ports : Ports D) (timer : D → ℕ × D) (stack : List ℕ)
    (address fuel : ℕ) (message_text : Message → List ℕ)
    (run : Growing Text → System D → Outcome (ℕ × System D)) where
  -- The loop that looks for `>`, with `left` words left: the descriptor for the output.
  pub find_redirect : ℕ → ℕ → Growing Text → System D → Outcome (ℕ × System D)
  find_redirect zero i cmd k = ok (stdout, k)
  find_redirect (suc left) i cmd k = word cmd i >>= λ s. matches s greater >>= λ same.
      (let opened =
          assert (i == sub32 cmd.len 2)
          >> (word cmd (i + 1) >>= λ path. open_path junk ports k path) in
        let rest = find_redirect left (i + 1) cmd k in if same then opened else rest)

  -- The chain of commands but for `exit`: the exit code.
  pub run_command : Command → ℕ → Growing Text → System D → Outcome (ℕ × System D)
  run_command cmd_exit out cmd k = ok (0, k)
  run_command cmd_help out cmd k =
      say_literal junk ports k stdout
        (b'c' ∷ b'o' ∷ b'm' ∷ b'm' ∷ b'a' ∷ b'n' ∷ b'd' ∷ b's' ∷ b':' ∷ b' ' ∷ b'l' ∷ b's' ∷ b','
          ∷ b' ' ∷ b'c' ∷ b'a' ∷ b't' ∷ b',' ∷ b' ' ∷ b'e' ∷ b'c' ∷ b'h' ∷ b'o' ∷ b',' ∷ b' ' ∷ b't'
          ∷ b'o' ∷ b'u' ∷ b'c' ∷ b'h' ∷ b',' ∷ b' ' ∷ b'r' ∷ b'm' ∷ b',' ∷ b' ' ∷ b'm' ∷ b'k' ∷ b'd'
          ∷ b'i' ∷ b'r' ∷ 10 ∷ [])
        43
      >>= λ k1. ok (0, k1)
  run_command cmd_ls out cmd k = exec_ls junk ports out cmd k
  run_command cmd_cat out cmd k = exec_cat junk ports fuel out cmd k
  run_command cmd_echo out cmd k = exec_echo junk ports out cmd k
  run_command cmd_touch out cmd k = exec_touch junk ports cmd k
  run_command cmd_rm out cmd k = exec_rm junk ports cmd k
  run_command cmd_mkdir out cmd k = exec_mkdir junk ports cmd k
  run_command cmd_sget out cmd k = exec_sget junk ports timer stack address fuel cmd k
  run_command cmd_run out cmd k = run cmd k
  run_command cmd_unknown out cmd k =
      say_literal junk ports k stdout no_parse 24 >>= λ k1. ok (0, k1)

  -- The frees before `shell` returns.
  pub leave : Shell D → Growing Text → System D → Outcome (Step D)
  leave s cmd k = free_string k.fs.heap s.curr_command >>= λ h1.
      free_string h1 s.working_dir >>= λ h2.
      free_string_list h2 cmd >>= λ h3. ok (exited (with_heap k h3))

  -- A command and what follows it.
  pub perform : Shell D → Command → ℕ → Growing Text → System D → Outcome (Step D)
  perform s command out cmd k = run_command command out cmd k >>= λ (r : ℕ × System D).
      (let closed = close_fd junk ports r.1 out in if out == stdout then ok r.1 else closed)
      >>= λ k1.
          (let message = message_text k1.fs.error_msg in
            let told = strlen message >>= λ count. say junk ports k1 stderr (take count message) in
            if r.0 == minus_one then told else ok k1)
          >>= λ k2. free_string_list k2.fs.heap cmd >>= λ heap.
              say_literal junk ports (with_heap k2 heap) stdout prompt 3 >>= λ k3.
              ok (running (record s { sys = k3; curr_command = record s.curr_command { len = 0 } }))

  -- The words of a line. A redirection that cannot be opened leaves the line in `curr_command`.
  pub process_words : Shell D → Growing Text → Outcome (Step D)
  process_words s cmd = find_redirect (sub32 cmd.len 1) 0 cmd s.sys >>= λ (out : ℕ × System D).
      (let refused = say_literal junk ports out.1 stdout no_parse 24 >>= λ k1.
      say_literal junk ports k1 stdout prompt 3 >>= λ k2. ok (running (record s { sys = k2 })) in
        let found = word cmd 0 >>= λ name. find_command command_words name >>= λ command.
        elim command [ cmd_exit ↦ leave s cmd out.1 | other ↦ perform s other out.0 cmd out.1 ] in
        if out.0 == minus_one then refused else found)

  -- The newline.
  unfoldable pub process_line : Shell D → Outcome (Step D)
  process_line s =
      let nothing = say_literal junk ports s.sys stdout prompt 3 >>= λ k1.
      ok (running (record s { sys = k1 })) in
      let line = add_char s.sys s.curr_command 0 >>= λ (r : System D × Text).
      string_split r.0.fs.heap r.1.contents b' ' true >>= λ (cmd : AllocArray × Growing Text).
      process_words (record s { sys = with_heap r.0 cmd.0; curr_command = r.1 }) cmd.1 in
      if s.curr_command.len == 0 then nothing else line

  -- One character from the terminal.
  unfoldable pub shell_char : Shell D → ℕ → Outcome (Step D)
  shell_char s c =
      let deleted = say junk ports s.sys stdout (8 ∷ []) >>= λ k1. ok (
        running (record s {
          sys = k1;
          curr_command = record s.curr_command { len = s.curr_command.len - 1 };
        })) in
      let backspace = if ltb 0 s.curr_command.len then deleted else ok (running s) in
      let shown = say junk ports s.sys stdout (c ∷ []) >>= λ k1.
      (let added = add_char k1 s.curr_command c >>= λ (r : System D × Text).
      ok (running (record s { sys = r.0; curr_command = r.1 })) in
        let entered = process_line (record s { sys = k1 }) in if c == 10 then entered else added) in
      if c == 8 then backspace else shown

  -- One round of the loop.
  pub shell_round : Shell D → Outcome (Step D)
  shell_round s = read ports s.sys stdin 1 >>= λ (r : List ℕ × System D). elim r.0 [
    | [] ↦ ok (running (record s { sys = r.1 }))
    | c ∷ cs ↦ shell_char (record s { sys = r.1 }) c
  ]

  -- What stands before the loop.
  pub start_shell : System D → Outcome (Shell D)
  start_shell k = add_char k empty b'/' >>= λ (r : System D × Text).
      say_literal junk ports r.0 stdout (b'$' ∷ b' ' ∷ []) 2 >>= λ k1.
      ok (record { sys = k1; curr_command = empty; working_dir = r.1 })
