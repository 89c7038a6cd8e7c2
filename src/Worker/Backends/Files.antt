-- ===== src/Worker/Backends/Files.antt =====
-- What the calls on one backend (directdnsonly/worker.py) leave in its zone files.
use directdnsonly.Base.{
  ℕ, String, ◌≡◌, refl, ◌∙◌, Bool, true, false, ◌&&◌, Option, none, some, List, if◌then◌else◌, ◌==◌,
  string_eq, ltb, Option-cases, inl, inr,
}
use directdnsonly.Base.Exec.{Exec, Result, ok, raised, pure, ◌>>=◌, ◌>>◌, on_raise}
use directdnsonly.Backend.{DnsBackend}
use directdnsonly.Backend.Files.{System}
use directdnsonly.Backend.Bind
use directdnsonly.Backend.Dispatch.{bind, nsd, any_backend}
use directdnsonly.Backend.Store.{
  Files, IsStore, WriteEnds, DeleteEnds, SameElse, files_of, any_backend-IsStore,
}
use directdnsonly.Zone.{count_zone_records}
use directdnsonly.Worker.Backends.{
  handled, when, verify_backend_record_count, reload, process_single_backend, delete_single_backend,
}

module _ {S : Type 0} (files : Files S) where
  -- A call that leaves the zone files as they are, also if it raises
  abbrev pub Keeps : {A : Type 0} → Exec S A → Type 0
  Keeps m = (b : S) (k : String) → files (m b).1 k ≡ files b k

  -- A store of zone files whose other methods leave them as they are
  pub record IsServer (B : DnsBackend S) : Type 0 where
    pub reachable : String → Bool
    pub store : IsStore files reachable B
    pub update_keeps : (zs : List String) → Keeps (B.update_named_conf zs)
    pub verify_keeps : (z : String) (n : ℕ) → Keeps (B.verify_zone_record_count z n)
    pub reconcile_keeps : (z d : String) → Keeps (B.reconcile_zone_records z d)

  then-Keeps :
      {A C : Type 0} (m : Exec S A) (f : A → Exec S C)
      → Keeps m
      → ((a : A) → Keeps (f a))
      → Keeps (m >>= f)
  then-Keeps {A} {C} m f h g b k = goes (m b) (h b k)
    where
      goes :
          (p : Result A × S)
          → files p.1 k ≡ files b k
          → files (((λ (_ : S). p) >>= f) b).1 k ≡ files b k
      goes (ok a, s) e = g a s k ∙ e
      goes (raised x, s) e = e

  on_raise-Keeps : {A : Type 0} (m h : Exec S A) → Keeps m → Keeps h → Keeps (on_raise m h)
  on_raise-Keeps {A} m h km kh b k = goes (m b) (km b k)
    where
      goes :
          (p : Result A × S)
          → files p.1 k ≡ files b k
          → files (on_raise (λ (_ : S). p) h b).1 k ≡ files b k
      goes (ok a, s) e = e
      goes (raised x, s) e = kh s k ∙ e

  handled-Keeps :
      {A : Type 0} (a : A) (m : Exec S A)
      → Keeps m
      → (b : S) (k : String) → files (handled a m b).1 k ≡ files b k
  handled-Keeps {A} a m h b k = goes (m b) (h b k)
    where
      goes :
          (p : Result A × S)
          → files p.1 k ≡ files b k
          → files (handled a (λ (_ : S). p) b).1 k ≡ files b k
      goes (ok c, s) e = e
      goes (raised x, s) e = e

  if-Keeps :
      {A : Type 0} (c : Bool) (m n : Exec S A) → Keeps m → Keeps n → Keeps (if c then m else n)
  if-Keeps true m n km kn = km
  if-Keeps false m n km kn = kn

  pure-Keeps : {A : Type 0} (a : A) → Keeps (pure {S = S} a)
  pure-Keeps a b k = refl

  module _ (B : DnsBackend S) (I : IsServer B) where
    reload-zone-Keeps : (z : Option String) → Keeps (B.reload_zone z)
    reload-zone-Keeps z b k = (I.store.reload_ends z b).2 k

    reloaded-Keeps : (z : Option String) → Keeps (B.reload_zone z >> pure tt)
    reloaded-Keeps z =
        then-Keeps (B.reload_zone z) (λ _. pure tt) (reload-zone-Keeps z) (λ _. pure-Keeps tt)

    reload-Keeps : (domains : List String) (d : String) → Keeps (reload B domains d)
    unfolding reload
    reload-Keeps domains d b =
        if-Keeps (B.get_name b == "bind")
          (B.update_named_conf domains >> (B.reload_zone none >> pure tt))
          (B.reload_zone (some d) >> pure tt)
          (then-Keeps (B.update_named_conf domains) (λ _. B.reload_zone none >> pure tt)
            (I.update_keeps domains) (λ _. reloaded-Keeps none))
          (reloaded-Keeps (some d)) b

    when-Keeps : (c : Bool) (m : Exec S (Unit {0})) → Keeps m → Keeps (when B c m)
    when-Keeps true m h = h
    when-Keeps false m h = pure-Keeps tt

    -- What follows a count of the records
    abbrev counted : String → String → ℕ → Bool × ℕ → Exec S (Unit {0})
    counted z d expected p =
        if p.0
        then pure tt
        else when B (ltb expected p.1) (
            B.reconcile_zone_records z d >>= λ q.
            when B (q.0 && ltb 0 q.1) (B.verify_zone_record_count z expected >> pure tt))

    counted-Keeps : (z d : String) (expected : ℕ) (p : Bool × ℕ) → Keeps (counted z d expected p)
    counted-Keeps z d expected p =
        let again : Exec S (Unit {0}) = B.verify_zone_record_count z expected >> pure tt in
        let repairs : Exec S (Unit {0}) =
          B.reconcile_zone_records z d >>= λ q. when B (q.0 && ltb 0 q.1) again in
        if-Keeps p.0 (pure tt) (when B (ltb expected p.1) repairs) (pure-Keeps tt) (
          when-Keeps (ltb expected p.1) repairs (
            then-Keeps (B.reconcile_zone_records z d) (λ q. when B (q.0 && ltb 0 q.1) again)
              (I.reconcile_keeps z d)
              λ q. when-Keeps (q.0 && ltb 0 q.1) again (
                then-Keeps (B.verify_zone_record_count z expected) (λ _. pure tt)
                  (I.verify_keeps z expected) (λ _. pure-Keeps tt))))

    verify_backend_record_count-Keeps :
        (from_text : String → String → Option (List ℕ)) (z d : String)
        → Keeps (verify_backend_record_count B from_text z d)
    unfolding verify_backend_record_count
    verify_backend_record_count-Keeps from_text z d =
        elim (Option-cases (count_zone_records from_text d z)) [
          | inl unread ↦ rw (unread, verify_backend_record_count) (λ b k. refl)
          | inr (n, e) ↦
              rw (e, verify_backend_record_count)
                (on_raise-Keeps (B.verify_zone_record_count z n >>= counted z d n) (pure tt)
                  (then-Keeps (B.verify_zone_record_count z n) (counted z d n) (I.verify_keeps z n)
                    (counted-Keeps z d n))
                  (pure-Keeps tt))
        ]

    -- A write to a backend that reports success leaves the text in the file of the zone.
    pub process_single_backend-Written :
        (from_text : String → String → Option (List ℕ)) (domains : List String) (z d : String)
        (b : S)
        → let (success, b') = process_single_backend B from_text domains z d b in
          SameElse files z b b' × (success ≡ true → (files b' z ≡ some d) × (I.reachable z ≡ true))
    unfolding process_single_backend
    process_single_backend-Written from_text domains z d b =
        goes (B.write_zone z d b) (I.store.write_ends z d b) (I.store.write_reaches z d b)
      where
        follow_up : Exec S Bool
        follow_up = reload B domains z >> (verify_backend_record_count B from_text z d >> pure true)

        follow_up-Keeps : Keeps follow_up
        follow_up-Keeps =
            then-Keeps (reload B domains z)
              (λ _. verify_backend_record_count B from_text z d >> pure true)
              (reload-Keeps domains z)
              (λ _.
                then-Keeps (verify_backend_record_count B from_text z d) (λ _. pure true)
                  (verify_backend_record_count-Keeps from_text z d) (λ _. pure-Keeps true))

        goes :
            (p : Result Bool × S)
            → WriteEnds files z d b p
            → (p.0 ≡ ok true → I.reachable z ≡ true)
            → let (success, b') =
                handled false
                  ((λ (_ : S). p) >>= λ written. if written then follow_up else pure false)
                  b in
              SameElse files z b b'
              × (success ≡ true → (files b' z ≡ some d) × (I.reachable z ≡ true))
        goes (ok true, s) (c, e, same, there) reach =
            let left : (k : String) → files (handled false follow_up s).1 k ≡ files s k =
              handled-Keeps false follow_up follow_up-Keeps s in
            ((λ k apart. left k ∙ same k apart), λ h. (left z ∙ there (cc e), reach refl))
        goes (ok false, s) (c, e, same, there) reach = (same, λ h. absurd (cc h))
        goes (raised x, s) (c, e, same, there) reach = absurd (cc e)

    -- A delete from a backend that reports success leaves no file of the zone.
    pub delete_single_backend-Gone :
        (domains : List String) (z : String) (b : S)
        → let (success, b') = delete_single_backend B z domains b in
          SameElse files z b b' × (success ≡ true → (files b' z ≡ none) × (I.reachable z ≡ true))
    unfolding delete_single_backend
    delete_single_backend-Gone domains z b =
        goes (B.delete_zone z b) (I.store.delete_ends z b) (I.store.delete_reaches z b)
      where
        follow_up : Exec S Bool
        follow_up = reload B domains z >> pure true

        follow_up-Keeps : Keeps follow_up
        follow_up-Keeps =
            then-Keeps (reload B domains z) (λ _. pure true) (reload-Keeps domains z)
              (λ _. pure-Keeps true)

        goes :
            (p : Result Bool × S)
            → DeleteEnds files z b p
            → (p.0 ≡ ok true → I.reachable z ≡ true)
            → let (success, b') =
                handled false
                  ((λ (_ : S). p) >>= λ deleted. if deleted then follow_up else pure false)
                  b in
              SameElse files z b b'
              × (success ≡ true → (files b' z ≡ none) × (I.reachable z ≡ true))
        goes (ok true, s) (c, e, same, gone) reach =
            let left : (k : String) → files (handled false follow_up s).1 k ≡ files s k =
              handled-Keeps false follow_up follow_up-Keeps s in
            ((λ k apart. left k ∙ same k apart), λ h. (left z ∙ (gone (cc e)).1, reach refl))
        goes (ok false, s) (c, e, same, gone) reach = (same, λ h. absurd (cc h))
        goes (raised x, s) (c, e, same, gone) reach = absurd (cc e)

-- Both classes of backends are servers of zone files.
pub any_backend-IsServer : (os : System) → IsServer files_of (any_backend os)
unfolding Bind.update_named_conf
any_backend-IsServer os = record {
  reachable = os.reachable;
  store = any_backend-IsStore os;
  update_keeps = updates;
  verify_keeps = verifies;
  reconcile_keeps = reconciles;
}
  where
    updates : (zs : List String) → Keeps files_of ((any_backend os).update_named_conf zs)
    updates zs (bind b) k = refl
    updates zs (nsd b) k = refl

    verifies : (z : String) (n : ℕ) → Keeps files_of ((any_backend os).verify_zone_record_count z n)
    verifies z n (bind b) k = refl
    verifies z n (nsd b) k = refl

    reconciles : (z d : String) → Keeps files_of ((any_backend os).reconcile_zone_records z d)
    reconciles z d (bind b) k = refl
    reconciles z d (nsd b) k = refl
