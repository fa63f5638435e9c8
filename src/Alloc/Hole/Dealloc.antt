-- ===== src/Alloc/Hole/Dealloc.antt =====
-- `fn deallocate`: on a block that is not free it does not panic, keeps the list well formed, and
-- frees exactly that block.
use drogue_device.Base.{
  ℕ, ◌+◌, ◌^◌, ◌≤◌, ◌<◌, ◌≡◌, refl, ◌⊎◌, inr, ◌||◌, List, [], ◌∷◌, arith, Outcome, done, panic,
  ◌>>=◌,
}
use native.Mathlib.Decide.{ℕ_discrete, dec_le}
use drogue_device.Alloc.Hole.{HoleInfo, min_size, free_block, block}
use drogue_device.Alloc.Hole.Valid.{
  in_block, is_free, free_size, Chain, Clear, Chain-low, Chain-Clear,
}
use drogue_device.Alloc.Hole.Steps.{
  IsHole, free_block-fill, free_block-extend, free_block-merge, free_block-delegate,
  free_block-insert,
}

-- What the call leaves: the hole, the list behind it, and the state of the byte at `x`.
pub record Freed (x top : ℕ) (hole : HoleInfo) (hs : List HoleInfo) (addr size : ℕ)
    (hole' : HoleInfo) (hs' : List HoleInfo) : Type 0 where
  pub same_addr : hole'.addr ≡ hole.addr
  pub grown : hole.size ≤ hole'.size
  pub kept : hole.addr + hole.size < addr → hole'.size ≡ hole.size
  pub within : hole'.addr + hole'.size ≤ top
  pub behind : Chain top (hole'.addr + hole'.size) hs'
  pub total : hole'.size + free_size hs' ≡ hole.size + free_size hs + size
  pub bytes : is_free x (hole' ∷ hs') ≡ (in_block x (block addr size) || is_free x (hole ∷ hs))

abbrev pub Returns :
    Outcome (HoleInfo × List HoleInfo) → (HoleInfo → List HoleInfo → Type 0) → Type 0
Returns (done (h, hs)) P = P h hs
Returns panic P = ⊥

module _ (P Q : HoleInfo → List HoleInfo → Type 0) where
  Returns-map :
      (r : Outcome (HoleInfo × List HoleInfo))
      → ((h : HoleInfo) (hs : List HoleInfo) → P h hs → Q h hs)
      → Returns r P
      → Returns r Q
  Returns-map (done (h, hs)) f p = f h hs p
  Returns-map panic f p = p

  Returns-bind :
      (hole : HoleInfo) (r : Outcome (HoleInfo × List HoleInfo))
      → ((h : HoleInfo) (hs : List HoleInfo) → P h hs → Q hole (h ∷ hs))
      → Returns r P
      → Returns (r >>= λ (a : HoleInfo × List HoleInfo). done (hole, a.0 ∷ a.1)) Q
  Returns-bind hole (done (h, hs)) f p = f h hs p
  Returns-bind hole panic f p = p

-- The call's conditions: the block is long enough, below `top`, behind the hole and not free.
pub record Frees (top : ℕ) (hole : HoleInfo) (hs : List HoleInfo) (addr size : ℕ) : Type 0 where
  pub small : top < 2 ^ 31
  pub kind : ((hole.size ≡ 0) × (hole.addr ≡ 0) × (0 < addr)) ⊎ (min_size ≤ hole.size)
  pub behind : Chain top (hole.addr + hole.size) hs
  pub above : hole.addr + hole.size ≤ addr
  pub long : min_size ≤ size
  pub below : addr + size ≤ top
  pub clear : Clear addr size hs

module _ (x top : ℕ) where
  delegated :
      (hole next hole' : HoleInfo) (rest hs' : List HoleInfo) (addr size : ℕ)
      → Frees top hole (next ∷ rest) addr size
      → hole.addr + hole.size < addr
      → Freed x top next rest addr size hole' hs'
      → Freed x top hole (next ∷ rest) addr size hole (hole' ∷ hs')
  delegated hole next hole' rest hs' addr size f l d = record {
    same_addr = refl;
    grown = omega arith;
    kept = λ _. refl;
    within = omega arith;
    behind = ground arith;
    total = omega arith;
    bytes = ground arith;
  }

  merged :
      (hole next hole' : HoleInfo) (rest hs' : List HoleInfo) (addr size : ℕ)
      → Frees top hole (next ∷ rest) addr size
      → addr + size ≡ next.addr
      → Freed x top hole rest addr (size + next.size) hole' hs'
      → Freed x top hole (next ∷ rest) addr size hole' hs'
  merged hole next hole' rest hs' addr size f q d = record {
    same_addr = d.same_addr;
    grown = d.grown;
    kept = d.kept;
    within = d.within;
    behind = d.behind;
    total = omega arith;
    bytes = ground arith;
  }

  free_block-nil :
      (hole : HoleInfo) (addr size : ℕ)
      → Frees top hole [] addr size
      → Returns (free_block hole [] addr size) (Freed x top hole [] addr size)
  unfolding free_block
  free_block-nil hole addr size f = ground arith

  pub free_block-Freed :
      (hole : HoleInfo) (hs : List HoleInfo) (addr size : ℕ)
      → Frees top hole hs addr size
      → Returns (free_block hole hs addr size) (Freed x top hole hs addr size)
  free_block-Freed hole [] addr size f = free_block-nil hole addr size f
  free_block-Freed hole (next ∷ rest) addr size f = elim (ℕ_discrete (hole.addr + hole.size) addr) [
    | yes p ↦ elim (ℕ_discrete (addr + size) next.addr) [
      | yes q ↦
          rw (free_block-fill hole next rest addr size kind f.long f.above bound p q) (ground arith)
      | no q ↦
          rw (free_block-extend hole next rest addr size kind f.long f.above bound p q)
            (ground arith)
    ]
    | no p ↦ elim (ℕ_discrete (addr + size) next.addr) [
      | yes q ↦ rw (free_block-merge hole next rest addr size kind f.long f.above bound p q) (
          Returns-map _ _ _ (λ h hs d. merged hole next h rest hs addr size f q d)
            (free_block-Freed hole rest addr (size + next.size) (later q)))
      | no q ↦ elim (dec_le next.addr addr) [
        | yes r ↦
            rw (free_block-delegate hole next rest addr size kind f.long f.above bound p q r) (
              Returns-bind _ _ hole _
                (λ h hs d. delegated hole next h rest hs addr size f (omega arith) d)
                (free_block-Freed next rest addr size (record {
                  small = f.small;
                  kind = inr (omega arith);
                  behind = f.behind.3;
                  above = omega arith;
                  long = f.long;
                  below = f.below;
                  clear = f.clear.1;
                })))
        | no r ↦
            rw
              (free_block-insert hole next rest addr size kind f.long f.above bound p q
                (omega arith))
              (ground arith)
      ]
    ]
  ]
    where
      kind : IsHole hole
      kind = ground arith

      end : ℕ
      end = next.addr + next.size

      later : addr + size ≡ next.addr → Frees top hole rest addr (size + next.size)
      later q = record {
        small = f.small;
        kind = f.kind;
        behind = Chain-low top end (hole.addr + hole.size) rest (omega arith) f.behind.3;
        above = f.above;
        long = omega arith;
        below = omega arith;
        clear = Chain-Clear top end addr (size + next.size) rest (omega arith) f.behind.3;
      }

      bound : addr + size + next.size < 2 ^ 32
      bound = omega arith
