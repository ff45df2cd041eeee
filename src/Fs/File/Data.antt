-- ===== src/Fs/File/Data.antt =====
-- The loops of `read` and `write`.
use yo_rha.Base.{
  ℕ, zero, suc, ◌+◌, ◌-◌, ◌^◌, ◌≤◌, ◌<◌, ◌≡◌, refl, sym, ap, ◌∙◌, List, [], ◌∷◌, some, arith, ◌&&◌,
  ltb, leb, if◌then◌else◌, length, length-set, dec_lt, ℕ_discrete, ◌%◌, true, false, get_elem?,
  get_elem?-eq-get_or, get_or-set_self, get_or-set_ne, get_or, set, take, drop,
}
use yo_rha.Base.Outcome.{ok}
use yo_rha.Fs.State.{block_bytes}
use yo_rha.Fs.File.{read_loop, Writing, write_loop}

-- The smaller of two numbers.
abbrev pub least : ℕ → ℕ → ℕ
least a b = if leb a b then a else b

pub drop-some :
    (xs : List ℕ) (i : ℕ) (x : ℕ) → get_elem? xs i ≡ some x → drop i xs ≡ x ∷ drop (suc i) xs
drop-some [] i x h = ground arith
drop-some (y ∷ ys) zero x h = ground arith
drop-some (y ∷ ys) (suc i) x h = drop-some ys i x h

read_step :
    (block : List ℕ) (size left pos x q : ℕ) (bytes : List ℕ)
    → get_elem? block pos ≡ some x
    → pos < size
    → suc pos < 2 ^ 64
    → read_loop block size left (suc pos) ≡ ok (bytes, q)
    → read_loop block size (suc left) pos ≡ ok (x ∷ bytes, q)
unfolding read_loop
read_step block size left pos x q bytes found more small rest =
    let next : (pos + 1) % 2 ^ 64 ≡ suc pos = omega arith in
    let test : ltb pos size ≡ true = ground arith in rw (test, found, next, rest) (refl)

-- The loop of `read` copies the bytes of the file from the cursor on, up to its size and as many
-- as wanted, if the block holds them, and the cursor moves behind them.
pub read_loop_lem :
    (block : List ℕ) (size count pos : ℕ)
    → pos + least count (size - pos) ≤ length block
    → pos + count < 2 ^ 64
    → read_loop block size count pos
      ≡ ok (take (least count (size - pos)) (drop pos block), pos + least count (size - pos))
unfolding read_loop
read_loop_lem block size zero pos h k = ground arith
read_loop_lem block size (suc left) pos h k = elim (dec_lt pos size) [
  | no ge ↦
      let none_left : least (suc left) (size - pos) ≡ 0 = ground arith in
      let test : ltb pos size ≡ false = ground arith in
      rw (test, none_left) (ap (λ (n : ℕ). ok ([], n)) (omega arith))
  | yes more ↦
      let m = least left (size - suc pos) in
      let one_more : least (suc left) (size - pos) ≡ suc m = ground arith in
      let x = get_or block pos 0 in
      let found : get_elem? block pos ≡ some x =
        get_elem?-eq-get_or block pos 0 (omega (arith, one_more)) in
      let rest = read_loop_lem block size left (suc pos) (omega (arith, one_more)) (omega arith) in
      read_step block size left pos x (suc pos + m) (take m (drop (suc pos) block)) found more
        (omega arith) rest
      ∙ rw (one_more, drop-some block pos x found)
          (ap (λ (n : ℕ). ok (x ∷ take m (drop (suc pos) block), n)) (omega arith))
]

-- `out` is the state after a loop of `write` over `buf` that started in `w`.
pub record IsWrite (buf : List ℕ) (w out : Writing) : Type 0 where
  pub same_length : length out.block ≡ block_bytes
  pub write_pos : out.write_pos ≡ w.write_pos + least (length buf) (block_bytes - w.write_pos)
  pub size : out.size ≡ w.size + least (length buf) (block_bytes - w.write_pos)
  pub bytes_written :
      out.bytes_written ≡ w.bytes_written + least (length buf) (block_bytes - w.write_pos)
  pub bytes :
      (p : ℕ)
      → get_or out.block p 0 ≡ (
          if leb w.write_pos p
            && ltb p (w.write_pos + least (length buf) (block_bytes - w.write_pos))
          then get_or buf (p - w.write_pos) 0
          else get_or w.block p 0)

-- What the first pass and the later ones write together.
byte_step :
    (b : ℕ) (bs block : List ℕ) (pos m p : ℕ)
    → pos < length block
    → (if leb (suc pos) p && ltb p (suc pos + m)
        then get_or bs (p - suc pos) 0
        else get_or (set block pos b) p 0)
      ≡ (if leb pos p && ltb p (pos + suc m) then get_or (b ∷ bs) (p - pos) 0 else get_or block p 0)
byte_step b bs block pos m p lt = elim (ℕ_discrete pos p) [
  | yes same ↦
      let start : p - pos ≡ 0 = omega arith in
      let written : get_or (set block pos b) p 0 ≡ b =
        ap (λ (i : ℕ). get_or (set block pos b) i 0) (sym same)
        ∙ get_or-set_self block pos b 0 lt in
      ground (arith, ap (λ (i : ℕ). get_or (b ∷ bs) i 0) start)
  | no ne ↦
      let kept = get_or-set_ne block pos p b 0 ne in
      elim (dec_lt pos p) [
        | no before ↦ ground arith
        | yes after ↦
            let later : p - pos ≡ suc (p - suc pos) = omega arith in
            ground (arith, ap (λ (i : ℕ). get_or (b ∷ bs) i 0) later)
      ]
]

-- On a whole block, and while the size and the count do not overflow, the loop of `write` stores
-- the bytes of the buffer at the cursor, as far as the block reaches, and nowhere else. The size
-- grows by the number of bytes stored, also where they replace bytes of the file.
pub write_loop-IsWrite :
    (buf : List ℕ) (w : Writing)
    → length w.block ≡ block_bytes
    → w.size + length buf < 2 ^ 32
    → w.bytes_written + length buf < 2 ^ 32
    → IsWrite buf w (write_loop buf w)
unfolding write_loop
write_loop-IsWrite [] w h k l = record {
  same_length = h;
  write_pos = ground arith;
  size = ground arith;
  bytes_written = ground arith;
  bytes = λ p. ground arith;
}
write_loop-IsWrite (b ∷ bs) w h k l = elim (dec_lt w.write_pos block_bytes) [
  | no ge ↦
      let test : ltb w.write_pos block_bytes ≡ false = ground arith in
      rw test (record {
        same_length = h;
        write_pos = ground arith;
        size = ground arith;
        bytes_written = ground arith;
        bytes = λ p. ground arith;
      })
  | yes more ↦
      let test : ltb w.write_pos block_bytes ≡ true = ground arith in
      let w' : Writing = record {
        block = set w.block w.write_pos b;
        write_pos = suc w.write_pos;
        size = (w.size + 1) % 2 ^ 32;
        bytes_written = (w.bytes_written + 1) % 2 ^ 32;
      } in
      let rest : IsWrite bs w' (write_loop bs w') =
        write_loop-IsWrite bs w' (length-set w.block w.write_pos b ∙ h) (omega arith)
          (omega arith) in
      let next : (w.write_pos + 1) % 2 ^ 64 ≡ suc w.write_pos = omega arith in
      let m = least (length bs) (block_bytes - suc w.write_pos) in
      let one_more : least (length (b ∷ bs)) (block_bytes - w.write_pos) ≡ suc m = ground arith in
      rw (test, next)
        (record {
          same_length = rest.same_length;
          write_pos = ground (arith, rest.write_pos);
          size = ground (arith, rest.size);
          bytes_written = ground (arith, rest.bytes_written);
          bytes = λ p.
              rest.bytes p
              ∙ byte_step b bs w.block w.write_pos m p (omega (arith, h))
              ∙ ap
                  (λ (n : ℕ).
                    if leb w.write_pos p && ltb p (w.write_pos + n)
                    then get_or (b ∷ bs) (p - w.write_pos) 0
                    else get_or w.block p 0)
                  (sym one_more);
        })
]
