-- ===== src/Registry/Loaded.antt =====
-- Which instances the registry (directdnsonly/app/backends/__init__.py) holds.
use directdnsonly.Base.{
  String, ◌≡◌, refl, ap, ◌∙◌, Option, none, some, List, [], ◌∷◌, if◌then◌else◌, ◌==◌, string_eq,
  arith, ◌⊎◌, inl, inr, ◌↔◌, true,
}
use directdnsonly.Base.Exec.{ok}
use directdnsonly.Backend.Dispatch.{BackendInstance}
use directdnsonly.Registry.{
  init_bind, init_nsd, backend_type, is_available, new_backend, Machine, InstanceConfig,
  load_instance, load_instances, put_instance, new_registry, initialize_backends,
}

abbrev pub find_instance : String → List (String × BackendInstance) → Option BackendInstance
find_instance k [] = none
find_instance k ((j, b) ∷ rest) = if k == j then some b else find_instance k rest

abbrev pub find_config : String → List (String × InstanceConfig) → Option InstanceConfig
find_config k [] = none
find_config k ((j, c) ∷ rest) = if k == j then some c else find_config k rest

-- The keys of the configuration are distinct.
abbrev pub IsDict : List (String × InstanceConfig) → Type 0
IsDict [] = Unit {0}
IsDict ((k, c) ∷ rest) = (find_config k rest ≡ none) × IsDict rest

module _ (m : Machine) where
  -- What a name is loaded to
  abbrev pub loaded : Option InstanceConfig → Option BackendInstance
  loaded none = none
  loaded (some config) = load_instance m config

  find-put_instance :
      (k name : String) (o : Option BackendInstance) (rest : List (String × BackendInstance))
      → (k ≡ name → find_instance k rest ≡ none)
      → find_instance k (put_instance m name o rest)
        ≡ (if k == name then o else find_instance k rest)
  find-put_instance k name none rest h = ground (arith, h)
  find-put_instance k name (some b) rest h = ground arith

  find-load_instances :
      (configs : List (String × InstanceConfig)) (k : String)
      → IsDict configs
      → find_instance k (load_instances m configs) ≡ loaded (find_config k configs)
  unfolding load_instances
  find-load_instances [] k d = refl
  find-load_instances ((name, config) ∷ rest) k d =
      let later = find-load_instances rest k d.1 in
      find-put_instance k name (load_instance m config) (load_instances m rest)
        (λ p. later ∙ ap loaded (ap (λ j. find_config j rest) p ∙ d.0))
      ∙ ground (arith, later)

  -- The entry is enabled, of a type whose program is found, and the class makes this instance of it.
  abbrev pub IsLoadedAs : InstanceConfig → BackendInstance → Type 0
  IsLoadedAs config b =
      (config.enabled ≡ true)
      × (((config.type_ ≡ some "bind")
            × (m.named_runs ≡ true)
            × (init_bind m config.zones_dir config.named_conf ≡ ok b))
          ⊎ ((config.type_ ≡ some "nsd")
              × (m.nsd_control_found ≡ true)
              × (init_nsd m config.zones_dir config.nsd_conf ≡ ok b)))

  load_instance_iff :
      (config : InstanceConfig) (b : BackendInstance)
      → (load_instance m config ≡ some b) ↔ IsLoadedAs config b
  unfolding load_instance backend_type is_available new_backend string_eq
  load_instance_iff config b = (
    (λ h. ground arith),
    λ (on, kind). elim kind [
      | inl (e, found, made) ↦ rw (e, on, found, made, load_instance)
      | inr (e, found, made) ↦ rw (e, on, found, made, load_instance)
    ],
  )

  loaded_iff :
      (o : Option InstanceConfig) (b : BackendInstance)
      → (loaded o ≡ some b) ↔ ((config : InstanceConfig) × (o ≡ some config) × IsLoadedAs config b)
  loaded_iff none b = ((λ h. absurd cc), λ (c, e, h). absurd cc)
  loaded_iff (some config) b = (
    (λ h. (config, refl, (load_instance_iff config b).0 h)),
    λ (c, e, h). ap loaded e ∙ (load_instance_iff c b).1 h,
  )

  pub initialize_backends_lem :
      (configs : List (String × InstanceConfig))
      → IsDict configs
      → let r = initialize_backends m configs new_registry in
        ((k : String) (b : BackendInstance)
          → (find_instance k r.backend_instances ≡ some b) ↔ (
              (config : InstanceConfig) × (find_config k configs ≡ some config)
              × IsLoadedAs config b))
        × ((m' : Machine) (later : List (String × InstanceConfig))
            → initialize_backends m' later r ≡ r)
  initialize_backends_lem configs d = (
    (λ k b. rw (find-load_instances configs k d) (loaded_iff (find_config k configs) b)),
    λ m' later. refl,
  )
