-- ===== src/Ring/Queue.antt =====
-- What a ring promises: a first-in first-out queue of at most 63 characters.
use yo_rha.Base.{ℕ, List, [], ◌∷◌, ◌++◌, ◌==◌, if◌then◌else◌, length}

abbrev pub Queue : Type 0
Queue = List ℕ

-- Zero bytes and what does not fit are dropped.
abbrev pub push : Queue → ℕ → Queue
push q c = if c == 0 then q else (if length q == 63 then q else q ++ (c ∷ []))
