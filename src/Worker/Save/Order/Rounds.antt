-- ===== src/Worker/Save/Order/Rounds.antt =====
-- Whole rounds of the save worker of directdnsonly/worker.py under two orders of the threads' ends.
use mathlib.Core.List.{Perm}
use directdnsonly.Base.{
  ℕ, zero, suc, String, ◌≡◌, refl, sym, Bool, true, false, Option, none, some, List, map,
  Option-cases, inl, inr,
}
use directdnsonly.Base.Exec.{Result, ok, raised}
use directdnsonly.Worker.State.{Item, Host, IsHost, Manager}
use directdnsonly.Worker.Save.{process_item, count_processed, count_failed, batch, save_round}
use directdnsonly.Worker.Save.Batch.{Emptied, save_round-total}
use directdnsonly.Worker.Save.Order.{seen, other, moved, Same, Alike, process_item-Alike}

module _ (H : Host) (L : IsHost H) (order : List (String × Bool) → List (String × Bool))
    (P : (rs : List (String × Bool)) → Perm (order rs) rs) where
  open H use {queues}

  -- The host whose threads end in the other order
  abbrev after : Host
  after = other H order

  taken_one :
      (m : Manager H) (n : Manager after) (q : queues.Queue)
      → Same H order m n
      → Same H order (record m { save_queue = q }) (record n { save_queue = q })
  taken_one m n q (t, s, d, r, c, b, u, v) = (t, refl, d, r, c, b, u, v)

  -- Both rounds end with the same counts, or both run out of fuel.
  abbrev pub AlikeEnd : Option (ℕ × ℕ × Manager H) → Option (ℕ × ℕ × Manager after) → Type 0
  AlikeEnd none none = Unit
  AlikeEnd (some (p, f, m)) (some (q, g, n)) = (p ≡ q) × (f ≡ g) × Same H order m n
  AlikeEnd _ _ = ⊥

  counted :
      (a b : Result Bool) (p : ℕ)
      → a ≡ b
      → (count_processed H a p ≡ count_processed after b p)
        × (count_failed H a p ≡ count_failed after b p)
  counted (ok true) (ok true) p e = (refl, refl)
  counted (ok true) (ok false) p e = absurd (cc e)
  counted (ok true) (raised y) p e = absurd (cc e)
  counted (ok false) (ok true) p e = absurd (cc e)
  counted (ok false) (ok false) p e = (refl, refl)
  counted (ok false) (raised y) p e = absurd (cc e)
  counted (raised x) (ok c) p e = absurd (cc e)
  counted (raised x) (raised y) p e = (refl, refl)

  turn-Alike :
      (fuel p f : ℕ)
      → ((i : Item) (p f : ℕ) (m : Manager H) (n : Manager after)
          → Same H order m n
          → AlikeEnd (batch H fuel i p f m) (batch after fuel i p f n))
      → (x : Result Bool × Manager H) (y : Result Bool × Manager after) → Alike H order x y
      → AlikeEnd
          (elim (queues.get_nowait x.1.save_queue) [
            | none ↦ some (count_processed H x.0 p, count_failed H x.0 f, x.1)
            | some (i, q) ↦
                batch H fuel i
                  (count_processed H x.0 p)
                  (count_failed H x.0 f)
                  (record x.1 { save_queue = q })
          ])
          (elim (queues.get_nowait y.1.save_queue) [
            | none ↦ some (count_processed after y.0 p, count_failed after y.0 f, y.1)
            | some (i, q) ↦
                batch after fuel i
                  (count_processed after y.0 p)
                  (count_failed after y.0 f)
                  (record y.1 { save_queue = q })
          ])
  turn-Alike fuel p f later (a, m1) (b, n1) (e, same1) =
      elim (Option-cases (queues.get_nowait m1.save_queue)) [
        | inl empty ↦ rw (sym same1.1, empty) ((counted a b p e).0, (counted a b f e).1, same1)
        | inr ((i, q), taken) ↦
            rw (sym same1.1, taken, sym (counted a b p e).0, sym (counted a b f e).1)
              (later i (count_processed H a p) (count_failed H a f) (record m1 { save_queue = q })
                (record n1 { save_queue = q }) (taken_one m1 n1 q same1))
      ]

  batch-Alike :
      (fuel : ℕ) (item : Item) (p f : ℕ) (m : Manager H) (n : Manager after)
      → Same H order m n
      → AlikeEnd (batch H fuel item p f m) (batch after fuel item p f n)
  unfolding batch
  batch-Alike zero item p f m n same = tt
  batch-Alike (suc fuel) item p f m n same =
      turn-Alike fuel p f (batch-Alike fuel) (process_item H item m) (process_item after item n)
        (process_item-Alike H order L P item m n same)

  save_round-AlikeEnd :
      (m : Manager H) (r : queues.Queue)
      → map seen (queues.items m.retry_queue) ≡ map seen (queues.items r)
      → AlikeEnd (save_round H m) (save_round after (moved H order r m))
  unfolding save_round
  save_round-AlikeEnd m r e = elim (Option-cases (queues.get_nowait m.save_queue)) [
    | inl empty ↦ rw (empty, save_round) (refl, refl, (refl, refl, refl, e, refl, refl, refl, refl))
    | inr ((i, q), taken) ↦
        rw (taken, save_round)
          (batch-Alike (suc (queues.qsize q)) i 0 0 (record m { save_queue = q })
            (moved H order r (record m { save_queue = q }))
            (refl, refl, refl, e, refl, refl, refl, refl))
  ]

  -- Both rounds end, with the same counts, in states that are the same.
  abbrev pub Agree : Option (ℕ × ℕ × Manager H) → Option (ℕ × ℕ × Manager after) → Type 0
  Agree a b =
      (p f : ℕ) × (m : Manager H) × (n : Manager after) × (a ≡ some (p, f, m))
      × (b ≡ some (p, f, n))
      × Same H order m n

  ended_alike :
      (a : Option (ℕ × ℕ × Manager H)) (b : Option (ℕ × ℕ × Manager after))
      → AlikeEnd a b
      → (k : ℕ) → Emptied H a k
      → Agree a b
  ended_alike none none h k (p, f, m, e, empty, total) = absurd (cc e)
  ended_alike none (some y) h k t = absurd h
  ended_alike (some x) none h k t = absurd h
  ended_alike (some (p, f, m)) (some (q, g, n)) (e, e', same) k t =
      (p, f, m, n, refl, cc (e, e'), same)

  -- If the host keeps its assumptions, then whatever the order in which the threads of each item end, a
  -- round of the save worker ends, with the same counts, table, backends, save and delete queues,
  -- dead letters and readings of the clock; and what waits for a retry differs at most in the order
  -- of the failed backends, of which is only asked whether they hold a name.
  pub save_round-Agree :
      (m : Manager H) (r : queues.Queue)
      → map seen (queues.items m.retry_queue) ≡ map seen (queues.items r)
      → Agree (save_round H m) (save_round after (moved H order r m))
  save_round-Agree m r e =
      ended_alike (save_round H m) (save_round after (moved H order r m))
        (save_round-AlikeEnd m r e) _ (save_round-total H L m)
