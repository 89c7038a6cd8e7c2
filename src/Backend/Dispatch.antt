-- ===== src/Backend/Dispatch.antt =====
-- directdnsonly/app/backends/__init__.py: the two classes of backends that the registry knows, as
-- one type of instances whose methods dispatch on the class.
use directdnsonly.Base.{String}
use directdnsonly.Base.Exec.{Exec, Result}
use directdnsonly.Backend.{DnsBackend}
use directdnsonly.Backend.Files.{System}
use directdnsonly.Backend.Bind.{BindBackend, bind_backend}
use directdnsonly.Backend.Nsd.{NsdBackend, nsd_backend}

pub data BackendInstance : Type 0 where
  bind : BindBackend → BackendInstance
  nsd : NsdBackend → BackendInstance

abbrev on_bind : {A : Type 0} → Exec BindBackend A → BindBackend → Result A × BackendInstance
on_bind f b = let (r, b') = f b in (r, bind b')

abbrev on_nsd : {A : Type 0} → Exec NsdBackend A → NsdBackend → Result A × BackendInstance
on_nsd f b = let (r, b') = f b in (r, nsd b')

module _ (os : System) where
  abbrev dispatch :
      {A : Type 0}
      → (DnsBackend BindBackend → Exec BindBackend A)
      → (DnsBackend NsdBackend → Exec NsdBackend A)
      → Exec BackendInstance A
  dispatch f g (bind b) = on_bind (f (bind_backend os)) b
  dispatch f g (nsd b) = on_nsd (g (nsd_backend os)) b

  abbrev name_of : BackendInstance → String
  name_of (bind b) = "bind"
  name_of (nsd b) = "nsd"

  abbrev pub any_backend : DnsBackend BackendInstance
  any_backend = record {
    get_name = name_of;
    write_zone = λ z d. dispatch (λ B. B.write_zone z d) (λ B. B.write_zone z d);
    delete_zone = λ z. dispatch (λ B. B.delete_zone z) (λ B. B.delete_zone z);
    reload_zone = λ z. dispatch (λ B. B.reload_zone z) (λ B. B.reload_zone z);
    zone_exists = λ z. dispatch (λ B. B.zone_exists z) (λ B. B.zone_exists z);
    update_named_conf = λ zs. dispatch (λ B. B.update_named_conf zs) (λ B. B.update_named_conf zs);
    verify_zone_record_count =
        λ z n. dispatch (λ B. B.verify_zone_record_count z n) (λ B. B.verify_zone_record_count z n);
    reconcile_zone_records =
        λ z d. dispatch (λ B. B.reconcile_zone_records z d) (λ B. B.reconcile_zone_records z d);
  }
