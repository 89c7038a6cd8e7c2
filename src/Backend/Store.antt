-- ===== src/Backend/Store.antt =====
-- What both classes of backends promise as stores of zone files.
use directdnsonly.Base.{
  ◌+◌, String, ◌≡◌, refl, ap, ◌∙◌, Bool, true, false, Option, none, some, ◌==◌, string_eq, nat_eq,
  option_eq, Bool-cases, ◌&&◌, sym, if◌then◌else◌, inl, inr, arith,
}
use directdnsonly.Base.Exec.{Result, ok, raised, io_error}
use directdnsonly.Backend.{DnsBackend}
use directdnsonly.Backend.Files.{
  System, zone_write, Write, written, refused, torn, Zones, zone_file, exists, written_zone,
  unlinked_zone, succeeds, zone_file-put_file, zone_file-unlink,
}
use directdnsonly.Backend.Bind
use directdnsonly.Backend.Bind.{BindBackend}
use directdnsonly.Backend.Nsd
use directdnsonly.Backend.Nsd.{NsdBackend, ensure_zone_in_conf, remove_zone_from_conf}
use directdnsonly.Backend.Dispatch.{BackendInstance, bind, nsd, any_backend}

-- The file that a store has for a name
abbrev pub Files : Type 0 → Type 0
Files S = S → String → Option String

abbrev pub is_there : Option String → Bool
is_there none = false
is_there (some v) = true

-- The files of `b'` are those of `b`, but for the name.
abbrev pub SameElse : {S : Type 0} → Files S → String → S → S → Type 0
SameElse files z b b' = (k : String) → (k == z) ≡ false → files b' k ≡ files b k

-- How the calls but the check end: they raise nothing, and change at most the file of the zone that they are
-- called for. A write that reports success has stored the zone, a delete that reports success has
-- removed a file that was there.
module _ {S : Type 0} (files : Files S) where
  abbrev pub WriteEnds : String → String → S → Result Bool × S → Type 0
  WriteEnds z d b (r, b') =
      (success : Bool) × (r ≡ ok success)
      × SameElse files z b b'
      × (success ≡ true → files b' z ≡ some d)

  abbrev pub DeleteEnds : String → S → Result Bool × S → Type 0
  DeleteEnds z b (r, b') =
      (success : Bool) × (r ≡ ok success)
      × SameElse files z b b'
      × (success ≡ true → (is_there (files b z) ≡ true) × (files b' z ≡ none))

  abbrev pub ReloadEnds : S → Result Bool × S → Type 0
  ReloadEnds b (r, b') =
      (success : Bool) × (r ≡ ok success) × ((k : String) → files b' k ≡ files b k)

  -- A store of zone files. Its check answers whether there is one, and raises exactly where the path
  -- cannot be looked up, where no write or delete reports success.
  pub record IsStore (reachable : String → Bool) (B : DnsBackend S) : Type 0 where
    pub write_ends : (z d : String) (b : S) → WriteEnds z d b (B.write_zone z d b)
    pub delete_ends : (z : String) (b : S) → DeleteEnds z b (B.delete_zone z b)
    pub exists_ends :
        (z : String) (b : S)
        → B.zone_exists z b
          ≡ (if reachable z then ok (is_there (files b z)) else raised io_error, b)
    pub write_reaches :
        (z d : String) (b : S) → (B.write_zone z d b).0 ≡ ok true → reachable z ≡ true
    pub delete_reaches : (z : String) (b : S) → (B.delete_zone z b).0 ≡ ok true → reachable z ≡ true
    pub reload_ends : (z : Option String) (b : S) → ReloadEnds b (B.reload_zone z b)

abbrev pub bind_files_of : Files BindBackend
bind_files_of b k = zone_file k b.zones

abbrev pub nsd_files_of : Files NsdBackend
nsd_files_of b k = zone_file k b.zones

abbrev pub files_of : Files BackendInstance
files_of (bind b) = bind_files_of b
files_of (nsd b) = nsd_files_of b

-- What a call leaves of a directory
written_else :
    (w : Write) (z d k : String) (zs : Zones)
    → (k == z) ≡ false
    → zone_file k (written_zone w z d zs) ≡ zone_file k zs
written_else written z d k zs e = ground (arith, zone_file-put_file k z d zs)
written_else refused z d k zs e = refl
written_else (torn s) z d k zs e = ground (arith, zone_file-put_file k z s zs)

written_there :
    (w : Write) (z d : String) (zs : Zones)
    → succeeds w ≡ true
    → zone_file z (written_zone w z d zs) ≡ some d
written_there written z d zs e = ground (arith, zone_file-put_file z z d zs)
written_there refused z d zs e = absurd cc
written_there (torn s) z d zs e = absurd cc

unlinked_else :
    (w : Write) (z k : String) (zs : Zones)
    → (k == z) ≡ false
    → zone_file k (unlinked_zone w z zs) ≡ zone_file k zs
unlinked_else written z k zs e = ground (arith, zone_file-unlink k z zs)
unlinked_else refused z k zs e = refl
unlinked_else (torn s) z k zs e = refl

unlinked_gone :
    (w : Write) (z : String) (zs : Zones)
    → succeeds w ≡ true
    → zone_file z (unlinked_zone w z zs) ≡ none
unlinked_gone written z zs e = ground (arith, zone_file-unlink z z zs)
unlinked_gone refused z zs e = absurd cc
unlinked_gone (torn s) z zs e = absurd cc

exists-is_there : (z : String) (zs : Zones) → exists z zs ≡ is_there (zone_file z zs)
exists-is_there z zs = ground arith

-- A file that a delete has looked up
there_file :
    (c : Bool) (z : String) (zs : Zones)
    → (c && exists z zs) ≡ true
    → is_there (zone_file z zs) ≡ true
there_file true z zs h = sym (exists-is_there z zs) ∙ h
there_file false z zs h = absurd cc

module _ (os : System) where
  bind_deletes :
      (z : String) (b : BindBackend) → DeleteEnds bind_files_of z b (Bind.delete_zone os z b)
  unfolding Bind.delete_zone
  bind_deletes z b = elim (Bool-cases (os.reachable z && exists z b.zones)) [
    | inr e ↦ rw e (false, refl, (λ k apart. refl), λ h. absurd cc)
    | inl e ↦ rw e (
      succeeds (os.write b.calls),
      refl,
      (λ k. unlinked_else (os.write b.calls) z k b.zones),
      λ h. (there_file (os.reachable z) z b.zones e, unlinked_gone (os.write b.calls) z b.zones h),
    )
  ]

  bind-IsStore : IsStore bind_files_of os.reachable (Bind.bind_backend os)
  unfolding Bind.write_zone Bind.delete_zone Bind.reload_zone Bind.zone_exists
  bind-IsStore = record {
    write_ends = λ z d b. (
      succeeds (zone_write os z b.calls),
      refl,
      (λ k. written_else (zone_write os z b.calls) z d k b.zones),
      written_there (zone_write os z b.calls) z d b.zones,
    );
    delete_ends = bind_deletes;
    exists_ends = λ z b.
        ap (λ e. (if os.reachable z then ok e else raised io_error, b)) (exists-is_there z b.zones);
    write_reaches = λ z d b h. ground (arith, h);
    delete_reaches = λ z b h. ground (arith, h);
    reload_ends = λ z b. (os.control b.calls, refl, λ k. refl);
  }

  ensured_zones : (z : String) (b : NsdBackend) → (ensure_zone_in_conf os z b).1.zones ≡ b.zones
  unfolding ensure_zone_in_conf
  ensured_zones z b = ground arith

  removed_zones : (z : String) (b : NsdBackend) → (remove_zone_from_conf os z b).1.zones ≡ b.zones
  unfolding remove_zone_from_conf
  removed_zones z b = ground arith

  nsd_writes :
      (z d : String) (b : NsdBackend) → WriteEnds nsd_files_of z d b (Nsd.write_zone os z d b)
  unfolding Nsd.write_zone
  nsd_writes z d b =
      let w = zone_write os z b.calls in
      let b' : NsdBackend = record b { zones = written_zone w z d b.zones; calls = b.calls + 1 } in
      let (done, b'') = ensure_zone_in_conf os z b' in
      elim (Bool-cases (succeeds w)) [
        | inr e ↦ rw e (false, refl, (λ k. written_else w z d k b.zones), λ h. absurd cc)
        | inl e ↦ rw e (
          done,
          refl,
          (λ k apart. ap (zone_file k) (ensured_zones z b') ∙ written_else w z d k b.zones apart),
          λ h. ap (zone_file z) (ensured_zones z b') ∙ written_there w z d b.zones e,
        )
      ]

  nsd_deletes : (z : String) (b : NsdBackend) → DeleteEnds nsd_files_of z b (Nsd.delete_zone os z b)
  unfolding Nsd.delete_zone
  nsd_deletes z b =
      let w = os.write b.calls in
      let b' : NsdBackend = record b { zones = unlinked_zone w z b.zones; calls = b.calls + 1 } in
      let (done, b'') = remove_zone_from_conf os z b' in
      elim (Bool-cases (os.reachable z && exists z b.zones)) [
        | inr there ↦ rw there (false, refl, (λ k apart. refl), λ h. absurd cc)
        | inl there ↦ elim (Bool-cases (succeeds w)) [
          | inr e ↦ rw (there, e) (false, refl, (λ k. unlinked_else w z k b.zones), λ h. absurd cc)
          | inl e ↦
              rw (there, e)
                (
                  done,
                  refl,
                  (λ k apart.
                      ap (zone_file k) (removed_zones z b') ∙ unlinked_else w z k b.zones apart),
                  λ h. (
                    there_file (os.reachable z) z b.zones there,
                    ap (zone_file z) (removed_zones z b') ∙ unlinked_gone w z b.zones e,
                  ),
                )
        ]
      ]

  nsd-IsStore : IsStore nsd_files_of os.reachable (Nsd.nsd_backend os)
  unfolding Nsd.write_zone Nsd.delete_zone Nsd.reload_zone Nsd.zone_exists
  nsd-IsStore = record {
    write_ends = nsd_writes;
    delete_ends = nsd_deletes;
    exists_ends = λ z b.
        ap (λ e. (if os.reachable z then ok e else raised io_error, b)) (exists-is_there z b.zones);
    write_reaches = λ z d b h. ground (arith, h);
    delete_reaches = λ z b h. ground (arith, h);
    reload_ends = λ z b. (os.control b.calls, refl, λ k. refl);
  }

  -- Whatever the system calls do on files of text, an instance of either class is a store of zone files:
  -- its writes, deletes and reloads raise nothing, a write or delete changes at most the file of its
  -- zone and a reload none, a write that reports success has stored the zone, and a delete that
  -- reports success has removed a file that was there. A check answers whether there is a file, and
  -- raises where the path cannot be looked up, where no write or delete reports success.
  pub any_backend-IsStore : IsStore files_of os.reachable (any_backend os)
  any_backend-IsStore = record {
    write_ends = writes;
    delete_ends = deletes;
    exists_ends = checks;
    write_reaches = write_reach;
    delete_reaches = delete_reach;
    reload_ends = reloads;
  }
    where
      write_reach :
          (z d : String) (b : BackendInstance)
          → ((any_backend os).write_zone z d b).0 ≡ ok true
          → os.reachable z ≡ true
      write_reach z d (bind b) = bind-IsStore.write_reaches z d b
      write_reach z d (nsd b) = nsd-IsStore.write_reaches z d b

      delete_reach :
          (z : String) (b : BackendInstance)
          → ((any_backend os).delete_zone z b).0 ≡ ok true
          → os.reachable z ≡ true
      delete_reach z (bind b) = bind-IsStore.delete_reaches z b
      delete_reach z (nsd b) = nsd-IsStore.delete_reaches z b

      writes :
          (z d : String) (b : BackendInstance)
          → WriteEnds files_of z d b ((any_backend os).write_zone z d b)
      writes z d (bind b) = bind-IsStore.write_ends z d b
      writes z d (nsd b) = nsd-IsStore.write_ends z d b

      deletes :
          (z : String) (b : BackendInstance)
          → DeleteEnds files_of z b ((any_backend os).delete_zone z b)
      deletes z (bind b) = bind-IsStore.delete_ends z b
      deletes z (nsd b) = nsd-IsStore.delete_ends z b

      checks :
          (z : String) (b : BackendInstance)
          → (any_backend os).zone_exists z b
            ≡ (if os.reachable z then ok (is_there (files_of b z)) else raised io_error, b)
      checks z (bind b) =
          ap (λ (p : Result Bool × BindBackend). (p.0, bind p.1)) (bind-IsStore.exists_ends z b)
      checks z (nsd b) =
          ap (λ (p : Result Bool × NsdBackend). (p.0, nsd p.1)) (nsd-IsStore.exists_ends z b)

      reloads :
          (z : Option String) (b : BackendInstance)
          → ReloadEnds files_of b ((any_backend os).reload_zone z b)
      reloads z (bind b) = bind-IsStore.reload_ends z b
      reloads z (nsd b) = nsd-IsStore.reload_ends z b
