-- ===== src/Worker/Delete/Gone.antt =====
-- What a delete that the delete worker (directdnsonly/worker.py) reports leaves on the backends.
use directdnsonly.Base.{
  String, ◌≡◌, refl, ap, ◌∙◌, Bool, true, false, none, some, List, [], ◌∷◌, string_eq, arith, inl,
  inr, Option-cases,
}
use directdnsonly.Base.Exec.{ok}
use directdnsonly.Backend.Store.{Files, SameElse}
use directdnsonly.Worker.State.{Item, Host, IsHost, Manager}
use directdnsonly.Worker.Backends.Files.{IsServer, delete_single_backend-Gone}
use directdnsonly.Worker.Backends.Outcomes.{AllSucceed, instance_of, apply_to, instance_of-put_back}
use directdnsonly.Worker.Save.{domain_names}
use directdnsonly.Worker.Delete.{session_row, deleted, delete_from_backends, delete_item}
use directdnsonly.Worker.Delete.Ownership.{
  delete_call, delete_from_backends_lem, delete_item-deleted,
}

succeeded :
    {S : Type 0} (f : S → Bool × S) (n : String) (bs : List (String × S)) (s : S)
    → instance_of n bs ≡ some s
    → AllSucceed f bs
    → (f s).0 ≡ true
succeeded f n [] s h all = absurd (cc h)
succeeded f n ((j, t) ∷ rest) s h all = ground (arith, succeeded f n rest s)

module _ (H : Host) (L : IsHost H) (files : Files H.Instance) (I : IsServer files H.backend) where
  -- Under the name stands an instance without a file of the zone, which its check confirms; its other
  -- files are those of the instance that was there before.
  abbrev pub Lacks : String → String → H.Instance → List (String × H.Instance) → Type 0
  Lacks n d s after =
      (s' : H.Instance) × (instance_of n after ≡ some s')
      × (files s' d ≡ none)
      × (H.backend.zone_exists d s' ≡ (ok false, s'))
      × SameElse files d s s'

  delete_from_backends-Lacks :
      (d n : String) (m : Manager H) (s : H.Instance)
      → AllSucceed (delete_call H d m.table) m.backends
      → instance_of n m.backends ≡ some s
      → Lacks n d s (delete_from_backends H d m).1.backends
  unfolding delete_from_backends
  delete_from_backends-Lacks d n m s all there =
      let f = delete_call H d m.table in
      let (same, gone) =
        delete_single_backend-Gone files H.backend I (domain_names H m.table) d s in
      let (missing, reached) = gone (succeeded f n m.backends s there all) in
      (
        (f s).1,
        instance_of-put_back f n m.backends m.backends ∙ ap (λ a. apply_to f a a) there,
        missing,
        I.store.exists_ends d (f s).1 ∙ rw (missing, reached) refl,
        same,
      )

  deleted_backends :
      (item : Item) (d : String) (m : Manager H)
      → item.domain ≡ some d
      → (delete_item H item m).0 ≡ ok deleted
      → (delete_item H item m).1.backends ≡ (delete_from_backends H d m).1.backends
  unfolding delete_item
  deleted_backends item d m named done =
      elim (Option-cases (session_row d m.session_record (H.database.find d m.table))) [
        | inl gone ↦ absurd (ground (arith, named, done, gone))
        | inr (r, found) ↦
            ground (arith, named, done, found, (delete_from_backends_lem H L item m d (some r)).2)
      ]

  -- If the host keeps its assumptions and its backends are stores of zone files, then after a delete
  -- that is reported as done the row of the zone is gone, no backend has a file of the zone, each says
  -- so when it is asked, and every other file of a backend is as before.
  pub delete_item-Lacks :
      (item : Item) (d n : String) (m : Manager H) (s : H.Instance)
      → item.domain ≡ some d
      → (delete_item H item m).0 ≡ ok deleted
      → instance_of n m.backends ≡ some s
      → (H.database.find d (delete_item H item m).1.table ≡ none)
        × Lacks n d s (delete_item H item m).1.backends
  delete_item-Lacks item d n m s named done there =
      let (there_was, r, found, owner, all, rows) = delete_item-deleted H L item m d named done in
      (
        rows d ∙ ground arith,
        rw (deleted_backends item d m named done) (delete_from_backends-Lacks d n m s all there),
      )
