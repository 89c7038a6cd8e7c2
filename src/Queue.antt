-- ===== src/Queue.antt =====
-- persistqueue's `Queue`, which is not part of the repository: the operations that the workers
-- call, over an unknown state. `get_nowait` is `none` where the library raises `Empty`; a `get` that
-- blocks with a timeout ends the same two ways. `items` is what the queue holds, oldest first.
pub mod Memory
use directdnsonly.Base.{ℕ, ◌≡◌, Option, none, some, List, [], ◌∷◌, ◌++◌, length}

pub record Queues (A : Type 0) : Type 1 where
  pub Queue : Type 0
  pub put : A → Queue → Queue
  pub get_nowait : Queue → Option (A × Queue)
  pub task_done : Queue → Queue
  pub qsize : Queue → ℕ
  pub items : Queue → List A

-- First in, first out; acknowledging an item does not change what waits.
pub record IsFifo {A : Type 0} (Q : Queues A) : Type 0 where
  pub items-put : (x : A) (q : Q.Queue) → Q.items (Q.put x q) ≡ Q.items q ++ (x ∷ [])
  pub get_empty : (q : Q.Queue) → Q.items q ≡ [] → Q.get_nowait q ≡ none
  pub get_oldest :
      (x : A) (xs : List A) (q : Q.Queue)
      → Q.items q ≡ x ∷ xs
      → (r : Q.Queue) × (Q.get_nowait q ≡ some (x, r)) × (Q.items r ≡ xs)
  pub items-task_done : (q : Q.Queue) → Q.items (Q.task_done q) ≡ Q.items q
  pub qsize-items : (q : Q.Queue) → Q.qsize q ≡ length (Q.items q)
