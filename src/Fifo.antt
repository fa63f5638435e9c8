-- ===== src/Fifo.antt =====
-- `heapless::spsc::Queue`, which is not part of the repository: what the program uses of it, as its
-- documentation states it. `enqueue` refuses an item when the queue is full.
use drogue_device.Base.{
  ℕ, ◌≤◌, ◌<◌, ◌≡◌, refl, ◌⊎◌, inl, inr, ltb, if◌then◌else◌, Option, none, some, List, [], ◌∷◌,
  ◌++◌, length, arith, Bool-cases,
}

pub record Fifo (A : Type 0) : Type 1 where
  pub Queue : Type 0
  pub capacity : ℕ
  pub empty : Queue
  pub enqueue : A → Queue → Option Queue
  pub dequeue : Queue → Option (A × Queue)
  -- Oldest first.
  pub contents : Queue → List A
  pub contents-empty : contents empty ≡ []
  pub enqueue_lem :
      (a : A) (q : Queue)
      → ((length (contents q) < capacity)
          × ((q' : Queue) × (enqueue a q ≡ some q') × (contents q' ≡ contents q ++ a ∷ [])))
        ⊎ ((capacity ≤ length (contents q)) × (enqueue a q ≡ none))
  pub dequeue_lem :
      (q : Queue)
      → ((contents q ≡ []) × (dequeue q ≡ none))
        ⊎ ((a : A) × (q' : Queue) × (dequeue q ≡ some (a, q')) × (contents q ≡ a ∷ contents q'))

-- A bounded list meets the laws.
module _ {A : Type 0} (capacity : ℕ) where
  abbrev list_enqueue : A → List A → Option (List A)
  list_enqueue a q = if ltb (length q) capacity then some (q ++ a ∷ []) else none

  abbrev list_dequeue : List A → Option (A × List A)
  list_dequeue [] = none
  list_dequeue (a ∷ q) = some (a, q)

  pub list_enqueue_lem :
      (a : A) (q : List A)
      → ((length q < capacity)
          × ((q' : List A) × (list_enqueue a q ≡ some q') × (q' ≡ q ++ a ∷ [])))
        ⊎ ((capacity ≤ length q) × (list_enqueue a q ≡ none))
  list_enqueue_lem a q = elim (Bool-cases (ltb (length q) capacity)) [
    | inl room ↦ inl (ground arith, (q ++ a ∷ [], ground arith, refl))
    | inr full ↦ inr (ground arith, ground arith)
  ]

  pub list_dequeue_lem :
      (q : List A)
      → ((q ≡ []) × (list_dequeue q ≡ none))
        ⊎ ((a : A) × (q' : List A) × (list_dequeue q ≡ some (a, q')) × (q ≡ a ∷ q'))
  list_dequeue_lem [] = inl (refl, refl)
  list_dequeue_lem (a ∷ q) = inr (a, q, refl, refl)

  abbrev pub list_fifo : Fifo A
  list_fifo = record {
    Queue = List A;
    capacity = capacity;
    empty = [];
    enqueue = list_enqueue;
    dequeue = list_dequeue;
    contents = λ q. q;
    contents-empty = refl;
    enqueue_lem = list_enqueue_lem;
    dequeue_lem = list_dequeue_lem;
  }
