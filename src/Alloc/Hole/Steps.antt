-- ===== src/Alloc/Hole/Steps.antt =====
-- `fn deallocate`, one round of its loop: what each branch does, and when it is taken.
use drogue_device.Base.{ℕ, ◌+◌, ◌^◌, ◌≤◌, ◌<◌, ◌≡◌, ◌≢◌, ◌⊎◌, List, ◌∷◌, arith, done, ◌>>=◌}
use drogue_device.Alloc.Hole.{HoleInfo, min_size, hole_end, free_block, block, grow}

-- The dummy at the head, or a hole in memory.
abbrev pub IsHole : HoleInfo → Type 0
IsHole hole = ((hole.size ≡ 0) × (hole.addr ≡ 0)) ⊎ (min_size ≤ hole.size)

pub hole_end_lem :
    (hole : HoleInfo)
    → IsHole hole
    → hole.addr + hole.size < 2 ^ 32
    → hole_end hole ≡ hole.addr + hole.size
hole_end_lem hole k h = ground arith

module _ (hole next : HoleInfo) (rest : List HoleInfo) (addr size : ℕ) (k : IsHole hole)
    (m : min_size ≤ size) (b : hole.addr + hole.size ≤ addr)
    (t : addr + size + next.size < 2 ^ 32) where
  e : hole_end hole ≡ hole.addr + hole.size
  e = hole_end_lem hole k (omega arith)

  pub free_block-fill :
      hole.addr + hole.size ≡ addr
      → addr + size ≡ next.addr
      → free_block hole (next ∷ rest) addr size ≡ done (grow hole (size + next.size), rest)
  unfolding free_block
  free_block-fill p q = ground (arith, e)

  pub free_block-extend :
      hole.addr + hole.size ≡ addr
      → addr + size ≢ next.addr
      → free_block hole (next ∷ rest) addr size ≡ done (grow hole size, next ∷ rest)
  unfolding free_block
  free_block-extend p q = ground (arith, e)

  pub free_block-merge :
      hole.addr + hole.size ≢ addr
      → addr + size ≡ next.addr
      → free_block hole (next ∷ rest) addr size ≡ free_block hole rest addr (size + next.size)
  unfolding free_block
  free_block-merge p q = ground (arith, e)

  pub free_block-delegate :
      hole.addr + hole.size ≢ addr
      → addr + size ≢ next.addr
      → next.addr ≤ addr
      → free_block hole (next ∷ rest) addr size ≡ (
          free_block next rest addr size >>= λ (r : HoleInfo × List HoleInfo).
          done (hole, r.0 ∷ r.1))
  unfolding free_block
  free_block-delegate p q r = ground (arith, e)

  pub free_block-insert :
      hole.addr + hole.size ≢ addr
      → addr + size ≢ next.addr
      → addr < next.addr
      → free_block hole (next ∷ rest) addr size ≡ done (hole, block addr size ∷ next ∷ rest)
  unfolding free_block
  free_block-insert p q r = ground (arith, e)
