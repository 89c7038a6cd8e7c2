-- ===== src/Reconciler/Heal/Items.antt =====
-- What the healing pass queues.
use mathlib.Core.List.{append-nil, append_assoc}
use directdnsonly.Base.{
  ℕ, String, ◌≡◌, refl, Bool, true, false, Option, none, some, List, [], ◌∷◌, ◌++◌, if◌then◌else◌,
  string_eq, length, length-append, arith, not,
}
use directdnsonly.Base.Exec.{Result, ok, raised}
use directdnsonly.Database.{Domain}
use directdnsonly.Worker.State.{Item, Host, IsHost, Manager}
use directdnsonly.Reconciler.Heal.{
  or_blank, heal_item, missing_from, queue_heal, heal_row, heal_rows, heal_backends,
}

module _ (H : Host) where
  open H use {database, queues, backend}

  -- What the healing pass leaves alone.
  abbrev pub Untouched : Manager H → Manager H → Type 0
  Untouched m m' =
      (m'.table ≡ m.table)
      × (m'.delete_queue ≡ m.delete_queue)
      × (m'.retry_queue ≡ m.retry_queue)
      × (m'.dead_letter_count ≡ m.dead_letter_count)

  heal_row_keeps :
      (dry : Bool) (r : Domain) (z : Option String) (m : Manager H)
      → Untouched m (heal_row H dry r z m).1
  unfolding heal_row
  heal_row_keeps dry r none m = (refl, refl, refl, refl)
  heal_row_keeps dry r (some z) m = ground arith

  heal_rows_keeps :
      (dry : Bool) (rows : List Domain) (m : Manager H) → Untouched m (heal_rows H dry rows m).1
  unfolding heal_rows
  heal_rows_keeps dry [] m = (refl, refl, refl, refl)
  heal_rows_keeps dry (r ∷ rows) m =
      let m' = (heal_row H dry r r.zone_data m).1 in
      ground (arith, heal_rows_keeps dry rows m', heal_row_keeps dry r r.zone_data m)

  pub heal_backends_keeps : (dry : Bool) (m : Manager H) → Untouched m (heal_backends H dry m).1
  unfolding heal_backends
  heal_backends_keeps dry m = ground (arith, heal_rows_keeps dry (database.all m.table) m)

-- The answer says that the zone is absent; a check that raises does not.
abbrev pub says_absent : Result Bool → Bool
says_absent (ok present) = not present
says_absent (raised e) = false

module _ (H : Host) where
  open H use {database, queues, backend}

  -- The names of the backends whose check says that the zone is absent.
  abbrev pub lacking : String → List (String × H.Instance) → List String
  lacking d [] = []
  lacking d ((n, s) ∷ rest) =
      let missing = lacking d rest in
      if says_absent (backend.zone_exists d s).0 then n ∷ missing else missing

  -- A push of the zone for its owner, to the named backends only, that counts no retry yet.
  abbrev pub heal_for : Domain → String → List String → List Item
  heal_for r z [] = []
  heal_for r z (n ∷ ns) =
      record {
        domain = some r.domain;
        zone_file = some z;
        hostname = some (or_blank r.hostname);
        username = some (or_blank r.username);
        source = some "reconciler_heal";
        failed_backends = some (n ∷ ns);
        retry_count = some 0;
        retry_after = none;
      }
      ∷ []

  abbrev heal_of : Domain → Option String → List (String × H.Instance) → List Item
  heal_of r none bs = []
  heal_of r (some z) bs = heal_for r z (lacking r.domain bs)

  -- The heal items that are due: one for each row with zone data that some backend lacks, for
  -- exactly the backends that lack it.
  abbrev pub due_heals : List Domain → List (String × H.Instance) → List Item
  due_heals [] bs = []
  due_heals (r ∷ rows) bs = heal_of r r.zone_data bs ++ due_heals rows bs

module _ (H : Host) (L : IsHost H)
    (query : (d : String) (s : H.Instance) → (H.backend.zone_exists d s).1 ≡ s) where
  open H use {database, queues, backend}

  missing_from_lem :
      (d : String) (bs : List (String × H.Instance)) → missing_from H d bs ≡ (lacking H d bs, bs)
  unfolding missing_from
  missing_from_lem d [] = refl
  missing_from_lem d ((n, s) ∷ rest) = ground (arith, query d s, missing_from_lem d rest)

  -- The manager after a step that queues `new` in a live pass and nothing in a dry one.
  abbrev pub Queued : Bool → List Item → Manager H → ℕ × Manager H → Type 0
  Queued dry new m p =
      (p.1.backends ≡ m.backends)
      × (queues.items p.1.save_queue ≡ queues.items m.save_queue ++ (if dry then [] else new))
      × (p.0 ≡ length (if dry then [] else new))

  queue_heal_lem :
      (dry : Bool) (r : Domain) (z : String) (missing : List String) (m : Manager H)
      → Queued dry (heal_for H r z missing) m (queue_heal H dry r z missing m)
  unfolding heal_item
  queue_heal_lem true r z [] m = (refl, rw append-nil, refl)
  queue_heal_lem false r z [] m = (refl, rw append-nil, refl)
  queue_heal_lem true r z (n ∷ ns) m = (refl, rw append-nil, refl)
  queue_heal_lem false r z (n ∷ ns) m = (refl, L.queues.items-put _ m.save_queue, refl)

  heal_row_lem :
      (dry : Bool) (r : Domain) (z : Option String) (m : Manager H)
      → Queued dry (heal_of H r z m.backends) m (heal_row H dry r z m)
  unfolding heal_row
  heal_row_lem true r none m = (refl, rw append-nil, refl)
  heal_row_lem false r none m = (refl, rw append-nil, refl)
  heal_row_lem dry r (some z) m =
      rw (missing_from_lem r.domain m.backends)
        (queue_heal_lem dry r z (lacking H r.domain m.backends) m)

  heal_rows_lem :
      (dry : Bool) (rows : List Domain) (m : Manager H)
      → Queued dry (due_heals H rows m.backends) m (heal_rows H dry rows m)
  unfolding heal_rows
  heal_rows_lem true [] m = (refl, rw append-nil, refl)
  heal_rows_lem false [] m = (refl, rw append-nil, refl)
  heal_rows_lem dry (r ∷ rows) m =
      let (n, m') = heal_row H dry r r.zone_data m in
      let new = heal_of H r r.zone_data m.backends in
      ground (
        arith,
        heal_row_lem dry r r.zone_data m,
        heal_rows_lem dry rows m',
        append-nil (queues.items m.save_queue),
        append_assoc (queues.items m.save_queue) new (due_heals H rows m.backends),
        length-append new (due_heals H rows m.backends),
      )

  -- If the host keeps its assumptions and checks for a zone change no instance, a live healing pass
  -- queues exactly the due items behind what waits (one for each row with a zone that some backend
  -- says it lacks, with its domain, zone and owner, for exactly the backends that lack it), counts
  -- them and leaves the instances as they were; a dry run queues nothing and counts zero.
  pub heal_backends_lem :
      (dry : Bool) (m : Manager H)
      → Queued dry (due_heals H (database.all m.table) m.backends) m (heal_backends H dry m)
  unfolding heal_backends
  heal_backends_lem dry m = ground (
    arith,
    heal_rows_lem dry (database.all m.table) m,
    none_due (database.all m.table),
    append-nil (queues.items m.save_queue),
  )
    where
      no_heal : (r : Domain) (z : Option String) → heal_of H r z [] ++ [] ≡ []
      no_heal r none = refl
      no_heal r (some z) = refl

      none_due : (rows : List Domain) → due_heals H rows [] ≡ []
      none_due [] = refl
      none_due (r ∷ rows) = rw (none_due rows) (no_heal r r.zone_data)
