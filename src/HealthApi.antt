-- ===== src/HealthApi.antt =====
-- directdnsonly/app/api/health.py, on the instances of the registry.
use directdnsonly.Base.{String, Bool, ◌≡◌, ◌↔◌, refl, true, false, List, [], ◌∷◌}
use directdnsonly.Base.Exec.{Result, ok, raised, other}
use directdnsonly.Registry.{Machine, InstanceConfig, Registry, initialize_backends}
use directdnsonly.Backend.Files.{System}
use directdnsonly.Backend.Dispatch.{BackendInstance, any_backend}

-- `backend()`: no class of backends can be called through its instances, so that Python raises.
abbrev call_instance : BackendInstance → Result BackendInstance
call_instance b = raised other

module _ (os : System) where
  abbrev probed : Result BackendInstance → Result Bool
  probed (ok b) = ((any_backend os).zone_exists "test" b).0
  probed (raised e) = raised e

  abbrev with_entry :
      String → Result Bool → Result (List (String × Bool)) → Result (List (String × Bool))
  with_entry name (raised e) rest = raised e
  with_entry name (ok active) (raised e) = raised e
  with_entry name (ok active) (ok entries) = ok ((name, active) ∷ entries)

  -- The loop: the names, and whether each is active
  unfoldable pub health_entries : List (String × BackendInstance) → Result (List (String × Bool))
  health_entries [] = ok []
  health_entries ((name, b) ∷ rest) =
      let entries = health_entries rest in with_entry name (probed (call_instance b)) entries

  unfoldable pub health :
      Machine → List (String × InstanceConfig) → Registry → Result (List (String × Bool))
  unfolding health_entries
  health m configs r = health_entries (initialize_backends m configs r).backend_instances

abbrev answers : Result (List (String × Bool)) → Bool
answers (ok entries) = true
answers (raised e) = false

-- The health check answers exactly if no backend is loaded: with any instance it raises.
pub health_lem :
    (os : System) (m : Machine) (configs : List (String × InstanceConfig)) (r : Registry)
    → (answers (health os m configs r) ≡ true)
      ↔ ((initialize_backends m configs r).backend_instances ≡ [])
unfolding health
health_lem os m configs r = entries (initialize_backends m configs r).backend_instances
  where
    entries :
        (bs : List (String × BackendInstance)) → (answers (health_entries os bs) ≡ true) ↔ (bs ≡ [])
    entries [] = (λ h. refl, λ h. refl)
    entries ((name, b) ∷ bs) = (λ h. cc, λ h. cc)
