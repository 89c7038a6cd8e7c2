-- ===== src/Tests/Backend.antt =====
-- The theorems on the backends, at instances in memory.
use directdnsonly.Base.{refl, some, [], ◌∷◌, string_eq, nat_eq}
use directdnsonly.Backend.Files.{put_file}
use directdnsonly.Backend.Dispatch.{BackendInstance, nsd, any_backend}
use directdnsonly.Backend.Nsd
use directdnsonly.Backend.Nsd.{NsdBackend, stanzas}
use directdnsonly.Backend.Store.{IsStore, files_of, any_backend-IsStore}
use directdnsonly.Backend.Nsd.Removal.{others}
use directdnsonly.Backend.Nsd.Conf.{Includes, write-delete-Includes}
use directdnsonly.Tests.Samples.{healthy, full_disk, nsd_files}

any_backend-IsStore_example : IsStore files_of full_disk.reachable (any_backend full_disk)
any_backend-IsStore_example = any_backend-IsStore full_disk

abbrev with_zone : BackendInstance
with_zone = ((any_backend healthy).write_zone "a.org" "zone" (nsd nsd_files)).1

abbrev without_zone : BackendInstance
without_zone = ((any_backend healthy).delete_zone "a.org" with_zone).1

-- An include file that has the zone of another name
abbrev included : NsdBackend
included = record nsd_files { nsd_conf = some (stanzas "/etc/nsd/zones" ("b.org" ∷ [])) }

abbrev wrote : NsdBackend
wrote = (Nsd.write_zone healthy "a.org" "zone" included).1

abbrev deleted : NsdBackend
deleted = (Nsd.delete_zone healthy "a.org" wrote).1

write-delete-Includes_example : Includes (others "a.org" ("b.org" ∷ [])) deleted
unfolding Nsd.write_zone Nsd.delete_zone stanzas string_eq nat_eq put_file
write-delete-Includes_example =
    write-delete-Includes healthy "a.org" ("b.org" ∷ []) "zone" included wrote deleted refl
      (refl, refl) (refl, refl) ((refl, refl), tt) refl refl
