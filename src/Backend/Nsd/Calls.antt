-- ===== src/Backend/Nsd/Calls.antt =====
-- What a write and a delete of directdnsonly/app/backends/nsd.py that report success have done.
use mathlib.Core.Path.{ap₂}
use directdnsonly.Base.{
  ◌+◌, String, ◌≡◌, ap, Bool, true, false, Bool-cases, inl, inr, if◌then◌else◌, ◌&&◌,
}
use directdnsonly.Base.Exec.{Result, ok}
use directdnsonly.Backend.Files.{System, zone_write, written_zone, unlinked_zone, succeeds, exists}
use directdnsonly.Backend.Nsd.{
  NsdBackend, ensure_zone_in_conf, remove_zone_from_conf, write_zone, delete_zone,
}

-- An answer that is `ok true`, and what it was made of
ok_true :
    (c : Bool) (p : Bool × NsdBackend) (b s : NsdBackend)
    → Path (Result Bool × NsdBackend) (if c then (ok p.0, p.1) else (ok false, b)) (ok true, s)
    → p ≡ (true, s)
ok_true true (done, b') b s h =
    ap₂ (λ (x : Bool) (y : NsdBackend). (x, y)) (cc (ap (λ (q : Result Bool × NsdBackend). q.0) h))
      (ap (λ (q : Result Bool × NsdBackend). q.1) h)
ok_true false p b s h = absurd (cc (ap (λ (q : Result Bool × NsdBackend). q.0) h))

module _ (os : System) (zone : String) where
  -- The instance between the write of the zone's file and that of the include file
  abbrev pub filed : String → NsdBackend → NsdBackend
  filed d b = record b {
    zones = written_zone (zone_write os zone b.calls) zone d b.zones;
    calls = b.calls + 1;
  }

  abbrev pub unfiled : NsdBackend → NsdBackend
  unfiled b = record b {
    zones = unlinked_zone (os.write b.calls) zone b.zones;
    calls = b.calls + 1;
  }

  pub write_zone_done :
      (d : String) (b s : NsdBackend)
      → write_zone os zone d b ≡ (ok true, s)
      → ensure_zone_in_conf os zone (filed d b) ≡ (true, s)
  unfolding write_zone
  write_zone_done d b s h =
      ok_true (succeeds (zone_write os zone b.calls)) (ensure_zone_in_conf os zone (filed d b))
        (filed d b) s h

  pub delete_zone_done :
      (b s : NsdBackend)
      → delete_zone os zone b ≡ (ok true, s)
      → remove_zone_from_conf os zone (unfiled b) ≡ (true, s)
  unfolding delete_zone
  delete_zone_done b s h = elim (Bool-cases (os.reachable zone && exists zone b.zones)) [
    | inl there ↦
        ok_true (succeeds (os.write b.calls)) (remove_zone_from_conf os zone (unfiled b))
          (unfiled b) s (rw there at h)
    | inr gone ↦ absurd (cc (ap (λ (q : Result Bool × NsdBackend). q.0) (rw gone at h)))
  ]
