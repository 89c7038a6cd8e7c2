-- ===== src/Backend.antt =====
-- directdnsonly/app/backends/base.py: the methods of `DNSBackend` over the state of an instance.
-- A method may raise. `update_named_conf` is a method of `BINDBackend` alone, called by the worker
-- behind a test of `get_name`.
pub mod Files
pub mod Dispatch
pub mod Bind
pub mod Nsd
pub mod Store
pub mod RoundTrip
use directdnsonly.Base.{ℕ, String, Bool, Option, List}
use directdnsonly.Base.Exec.{Exec, raise, not_implemented}

pub record DnsBackend (S : Type 0) : Type 0 where
  pub get_name : S → String
  pub write_zone : String → String → Exec S Bool
  pub delete_zone : String → Exec S Bool
  pub reload_zone : Option String → Exec S Bool
  pub zone_exists : String → Exec S Bool
  pub update_named_conf : List String → Exec S Bool
  pub verify_zone_record_count : String → ℕ → Exec S (Bool × ℕ)
  pub reconcile_zone_records : String → String → Exec S (Bool × ℕ)

-- The two methods that the base class leaves to a backend that can read its records back.
module _ {S : Type 0} where
  abbrev pub base_verify_zone_record_count : String → ℕ → Exec S (Bool × ℕ)
  base_verify_zone_record_count zone_name expected_count = raise not_implemented

  abbrev pub base_reconcile_zone_records : String → String → Exec S (Bool × ℕ)
  base_reconcile_zone_records zone_name zone_data = raise not_implemented
