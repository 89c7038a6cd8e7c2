-- ===== src/Worker/Backends.antt =====
-- directdnsonly/worker.py: one zone written to, or deleted from, each of several backends.
pub mod Outcomes
pub mod Files
use directdnsonly.Base.{
  ℕ, String, Bool, true, false, ◌&&◌, Option, none, some, List, [], ◌∷◌, ltb, if◌then◌else◌, ◌==◌,
  string_eq, contains, keep,
}
use directdnsonly.Base.Exec.{Exec, ok, raised, pure, ◌>>=◌, ◌>>◌, on_raise}
use directdnsonly.Backend.{DnsBackend}
use directdnsonly.Zone.{count_zone_records}

abbrev pub gets : {S A : Type 0} → (S → A) → Exec S A
gets f s = (ok (f s), s)

-- `try: m` with a handler that returns `a`, for every exception
abbrev pub handled : {S A : Type 0} → A → Exec S A → S → A × S
handled a m s = let (r, s') = m s in elim r [ ok b ↦ (b, s') | raised _ ↦ (a, s') ]

module _ {S : Type 0} (B : DnsBackend S) where
  abbrev when : Bool → Exec S (Unit {0}) → Exec S (Unit {0})
  when true m = m
  when false m = pure tt

  module _ (from_text : String → String → Option (List ℕ)) where
    -- `_verify_backend_record_count`
    pub verify_backend_record_count : String → String → Exec S (Unit {0})
    verify_backend_record_count zone_name zone_data =
        on_raise
          (elim (count_zone_records from_text zone_data zone_name) [
            | none ↦ pure tt
            | some expected ↦ do
              (matches, actual) ← B.verify_zone_record_count zone_name expected
              if matches
                  then pure tt
                  else when (ltb expected actual) do
                    (success, removed) ← B.reconcile_zone_records zone_name zone_data
                    when (success && ltb 0 removed)
                        do B.verify_zone_record_count zone_name expected; pure tt
          ])
          (pure tt)

  -- The daemon of a backend learns of the change. `update_named_conf` and `reload_zone` report
  -- failures by their results, which are dropped.
  pub reload : List String → String → Exec S (Unit {0})
  reload domains domain = do
    name ← gets B.get_name
    if name == "bind"
        then (do B.update_named_conf domains; B.reload_zone none; pure tt)
        else (do B.reload_zone (some domain); pure tt)

  -- `_process_single_backend`; `domains` are the names of the rows of the table
  unfoldable pub process_single_backend :
      (String → String → Option (List ℕ)) → List String → String → String → S → Bool × S
  unfolding verify_backend_record_count reload
  process_single_backend from_text domains domain zone_file = handled false do
    written ← B.write_zone domain zone_file
    if written
        then (do
          reload domains domain
          verify_backend_record_count from_text domain zone_file
          pure true)
        else pure false

  -- `_delete_single_backend`
  unfoldable pub delete_single_backend : String → List String → S → Bool × S
  unfolding reload
  delete_single_backend domain remaining_domains = handled false do
    deleted ← B.delete_zone domain
    if deleted then (do reload remaining_domains domain; pure true) else pure false

module _ {S : Type 0} where
  -- `for backend_name, backend in backends.items()`: each result, and the instances after it
  unfoldable pub on_each :
      (S → Bool × S) → List (String × S) → List (String × Bool) × List (String × S)
  on_each f [] = ([], [])
  on_each f ((name, s) ∷ rest) =
      let (success, s') = f s in
      let (results, after) = on_each f rest in ((name, success) ∷ results, (name, s') ∷ after)

  -- `{k: v for k, v in backends.items() if k in target_backends}`, for a list that is not empty
  unfoldable pub targets : Option (List String) → List (String × S) → List (String × S)
  targets none backends = backends
  targets (some []) backends = backends
  targets (some (t ∷ ts)) backends = keep (λ b. contains (t ∷ ts) b.0) backends

  abbrev instance_after : String → S → List (String × S) → S
  instance_after name s [] = s
  instance_after name s ((n, s') ∷ rest) = if name == n then s' else instance_after name s rest

  -- The registry holds the instances that the calls have changed.
  unfoldable pub put_back : List (String × S) → List (String × S) → List (String × S)
  put_back after [] = []
  put_back after ((name, s) ∷ rest) = (name, instance_after name s after) ∷ put_back after rest

-- `failed.add(name)` for each result that is not a success. The set is a list with no name twice.
unfoldable pub failed_set : List (String × Bool) → List String
failed_set [] = []
failed_set ((name, success) ∷ results) =
    let failed = failed_set results in
    if success then failed else if contains failed name then failed else name ∷ failed
