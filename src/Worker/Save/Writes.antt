-- ===== src/Worker/Save/Writes.antt =====
-- The writes of one queue item: which backends are called, and what the retry is told.
use directdnsonly.Base.{
  String, ◌≡◌, refl, Bool, true, Option, none, some, List, [], ◌∷◌, if◌then◌else◌, string_eq,
  contains, arith, keep,
}
use directdnsonly.Worker.State.{Host, IsHost, Manager}
use directdnsonly.Worker.Backends.{process_single_backend, on_each, targets}
use directdnsonly.Worker.Backends.Outcomes.{
  contains-failed_set, any_failure-perm, reports_failure, any_failure-on_each, instance_of,
  apply_to, instance_of-put_back,
}
use directdnsonly.Worker.Save.{process_backends, domain_names}

-- The call on one backend.
abbrev pub write_call :
    (H : Host) → String → String → H.database.Table → H.Instance → Bool × H.Instance
write_call H domain zone_file t =
    process_single_backend H.backend H.from_text (domain_names H t) domain zone_file

module _ (H : Host) (L : IsHost H) where
  open H use {as_completed}

  -- A name is in the failed set exactly if the call on a target of that name reports failure,
  -- in whatever order the threads finish.
  pub contains-process_backends :
      (bs : List (String × H.Instance)) (domain zone_file : String) (m : Manager H) (n : String)
      → contains (process_backends H bs domain zone_file m).0 n
        ≡ reports_failure (write_call H domain zone_file m.table) n bs
  unfolding process_backends
  contains-process_backends bs domain zone_file m n =
      let f = write_call H domain zone_file m.table in
      ground (
        arith,
        any_failure-on_each f n bs,
        any_failure-perm n (L.as_completed (on_each f bs).0),
        contains-failed_set n (on_each f bs).0,
        contains-failed_set n (as_completed (on_each f bs).0),
      )

  -- Afterwards a target holds the instance that its own call left; every other is untouched.
  pub instance_of-process_backends :
      (bs : List (String × H.Instance)) (domain zone_file : String) (m : Manager H) (n : String)
      → instance_of n (process_backends H bs domain zone_file m).1.backends
        ≡ apply_to
            (write_call H domain zone_file m.table)
            (instance_of n bs)
            (instance_of n m.backends)
  unfolding process_backends
  instance_of-process_backends bs domain zone_file m n =
      instance_of-put_back (write_call H domain zone_file m.table) n bs m.backends

-- Whether a name is among the backends that an item is for.
abbrev pub is_target : Option (List String) → String → Bool
is_target none n = true
is_target (some []) n = true
is_target (some (t ∷ ts)) n = contains (t ∷ ts) n

module _ {S : Type 0} where
  instance_of-keep :
      (p : String → Bool) (n : String) (bs : List (String × S))
      → instance_of n (keep (λ b. p b.0) bs) ≡ (if p n then instance_of n bs else none)
  instance_of-keep p n [] = ground arith
  instance_of-keep p n ((k, s) ∷ rest) = ground (arith, instance_of-keep p n rest)

  pub instance_of-targets :
      (wanted : Option (List String)) (n : String) (bs : List (String × S))
      → instance_of n (targets wanted bs) ≡ (if is_target wanted n then instance_of n bs else none)
  unfolding targets
  instance_of-targets none n bs = refl
  instance_of-targets (some []) n bs = refl
  instance_of-targets (some (t ∷ ts)) n bs = instance_of-keep (contains (t ∷ ts)) n bs
