-- ===== src/Queue/Memory.antt =====
-- A queue kept as a list meets the assumptions.
use directdnsonly.Base.{refl, Option, none, some, List, [], ◌∷◌, ◌++◌, length}
use directdnsonly.Queue.{Queues, IsFifo}

abbrev uncons : {A : Type 0} → List A → Option (A × List A)
uncons [] = none
uncons (x ∷ xs) = some (x, xs)

abbrev pub list_queues : (A : Type 0) → Queues A
list_queues A = record {
  Queue = List A;
  put = λ x q. q ++ (x ∷ []);
  get_nowait = uncons;
  task_done = λ q. q;
  qsize = λ q. length q;
  items = λ q. q;
}

pub list_queues-IsFifo : (A : Type 0) → IsFifo (list_queues A)
list_queues-IsFifo A = record {
  items-put = λ x q. refl;
  get_empty = λ q h. rw h;
  get_oldest = λ x xs q h. (xs, rw h, refl);
  items-task_done = λ q. refl;
  qsize-items = λ q. refl;
}
