-- ===== src/Heap/Client.antt =====
-- A client of the heap: it allocates, frees and reallocates, and frees only what it has.
use yo_rha.Base.{ℕ, ◌+◌, ◌≤◌, ◌<◌, ◌≡◌, ◌⊎◌, inl, inr, List, [], ◌∷◌}
use yo_rha.Base.Outcome.{ok}
use yo_rha.Memory.{Memory}
use yo_rha.Heap.{AllocEntry, AllocArray, kmalloc, kfree, krealloc}
use yo_rha.Heap.Invariant.{Live}

-- A pointer and the size that was asked for.
abbrev pub Block : Type 0
Block = ℕ × ℕ

abbrev pub BlocksApart : Block → Block → Type 0
BlocksApart b c = (b.0 + b.1 ≤ c.0) ⊎ (c.0 + c.1 ≤ b.0)

pub data Removed (b : Block) : List Block → List Block → Type 0 where
  here : {bs : List Block} → Removed b (b ∷ bs) bs
  there : {c : Block} {bs cs : List Block} → Removed b bs cs → Removed b (c ∷ bs) (c ∷ cs)

-- A call that returns, and what the client has before it and after it.
pub data ClientStep : AllocArray → List Block → AllocArray → List Block → Type 0 where
  allocates :
      {a a' : AllocArray} {bs : List Block} {size ptr : ℕ}
      → 0 < size
      → kmalloc a size ≡ ok (ptr, a')
      → ClientStep a bs a' ((ptr, size) ∷ bs)
  frees :
      {a a' : AllocArray} {bs cs : List Block} {b : Block}
      → Removed b bs cs
      → kfree a b.0 ≡ ok a'
      → ClientStep a bs a' cs
  reallocates :
      {a a' : AllocArray} {bs cs : List Block} {b : Block} (m m' : Memory) {size ptr : ℕ}
      → 0 < size
      → Removed b bs cs
      → krealloc a m b.0 size ≡ ok (ptr, a', m')
      → ClientStep a bs a' ((ptr, size) ∷ cs)

pub data Reachable (a : AllocArray) : AllocArray → List Block → Type 0 where
  starts : Reachable a a []
  steps :
      {b c : AllocArray} {bs cs : List Block}
      → Reachable a b bs
      → ClientStep b bs c cs
      → Reachable a c cs

-- An entry in use has the pointer and the size.
pub record HasBlock (a : AllocArray) (b : Block) : Type 0 where
  pub slot : ℕ
  pub entry : AllocEntry
  pub live : Live a.entries slot entry
  pub based : entry.base_ptr ≡ b.0
  pub sized : entry.range.length ≡ b.1

abbrev pub AllApart : Block → List Block → Type 0
AllApart b [] = Unit
AllApart b (c ∷ cs) = BlocksApart b c × AllApart b cs

-- The blocks are in use, and no two of them meet.
abbrev pub AreOwned : AllocArray → List Block → Type 0
AreOwned a [] = Unit
AreOwned a (b ∷ bs) = HasBlock a b × AllApart b bs × AreOwned a bs

BlocksApart-symm : (b c : Block) → BlocksApart b c → BlocksApart c b
BlocksApart-symm b c (inl h) = inr h
BlocksApart-symm b c (inr h) = inl h

-- What is left after a removal.
AllApart-Removed :
    (b c : Block) {bs cs : List Block}
    → Removed b bs cs
    → AllApart c bs
    → BlocksApart c b × AllApart c cs
AllApart-Removed b c here h = h
AllApart-Removed b c (there r) h = let rest = AllApart-Removed b c r h.1 in (rest.0, (h.0, rest.1))

pub AreOwned-Removed :
    (a : AllocArray) (b : Block) {bs cs : List Block}
    → Removed b bs cs
    → AreOwned a bs
    → HasBlock a b × AllApart b cs × AreOwned a cs
AreOwned-Removed a b here h = h
AreOwned-Removed a b (there {c} r) h =
    let rest = AreOwned-Removed a b r h.2 in
    let apart = AllApart-Removed b c r h.1 in
    (rest.0, (BlocksApart-symm c b apart.0, rest.1), (h.0, apart.1, rest.2))
