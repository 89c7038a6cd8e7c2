-- ===== src/Backend/RoundTrip.antt =====
-- A zone that is written to a store and deleted again.
use directdnsonly.Base.{String, ◌≡◌, ap, ◌∙◌, Bool, refl, true, false, some, string_eq}
use directdnsonly.Base.Exec.{Result, ok}
use mathlib.Core.Path.{subst}
use directdnsonly.Backend.{DnsBackend}
use directdnsonly.Backend.Files.{System}
use directdnsonly.Backend.Dispatch.{BackendInstance, any_backend}
use directdnsonly.Backend.Store.{
  Files, SameElse, WriteEnds, DeleteEnds, IsStore, files_of, any_backend-IsStore,
}

-- `r` is what a write of `z` leads to from `b`, and `s` what a delete of it leads to from there.
abbrev pub RoundTrip : {S : Type 0} → DnsBackend S → Files S → String → String → S → S → S → Type 0
RoundTrip B files z d b r s =
    (B.zone_exists z r ≡ (ok true, r))
    × (files r z ≡ some d)
    × (B.zone_exists z s ≡ (ok false, s))
    × SameElse files z b s

module _ {S : Type 0} {B : DnsBackend S} {files : Files S} {reachable : String → Bool}
    (L : IsStore files reachable B) where
  store-RoundTrip :
      (z d : String) (b r s : S)
      → B.write_zone z d b ≡ (ok true, r)
      → B.delete_zone z r ≡ (ok true, s)
      → RoundTrip B files z d b r s
  store-RoundTrip z d b r s written removed =
      let (wrote, w, else_w, there) = subst (WriteEnds files z d b) written (L.write_ends z d b) in
      let (deleted, x, else_x, gone) = subst (DeleteEnds files z r) removed (L.delete_ends z r) in
      let stored = there (cc w) in
      let reached = L.write_reaches z d b (ap (λ (p : Result Bool × S). p.0) written) in
      let (was, lost) = gone (cc x) in
      (
        L.exists_ends z r ∙ rw (stored, reached) refl,
        stored,
        L.exists_ends z s ∙ rw (lost, reached) refl,
        λ k apart. else_x k apart ∙ else_w k apart,
      )

-- If an instance of either class reports success for the write of a zone and then for its delete,
-- whatever else the system calls do, the zone was there with its text in between, and is not there at
-- the end; every other file is as before the write.
pub write_zone-RoundTrip :
    (os : System) (z d : String) (b r s : BackendInstance)
    → (any_backend os).write_zone z d b ≡ (ok true, r)
    → (any_backend os).delete_zone z r ≡ (ok true, s)
    → RoundTrip (any_backend os) files_of z d b r s
write_zone-RoundTrip os z d b r s = store-RoundTrip (any_backend-IsStore os) z d b r s
