-- ===== src/Registry.antt =====
-- directdnsonly/app/backends/__init__.py: `BackendRegistry`, and how the two classes of backends are
-- made (`__init__` and `is_available` of bind.py and nsd.py). The machine below them is a parameter.
pub mod Loaded
use directdnsonly.Base.{
  ℕ, String, Bool, true, false, not, ◌&&◌, Option, none, some, List, [], ◌∷◌, if◌then◌else◌, ◌==◌,
  string_eq, truthy,
}
use directdnsonly.Base.Exec.{Result, ok, raised, other, io_error}
use directdnsonly.Backend.Files.{Zones}
use directdnsonly.Backend.Bind.{BindBackend}
use directdnsonly.Backend.Nsd.{NsdBackend}
use directdnsonly.Backend.Dispatch.{BackendInstance, bind, nsd}

-- What the machine answers: whether `named -v` ends with status 0, whether nsd-control is found,
-- whether a directory can be set up, whether a file can be created, the zone files in a directory, and
-- the content of a file, `none` where it does not exist.
pub record Machine : Type 0 where
  pub named_runs : Bool
  pub nsd_control_found : Bool
  pub set_up : String → Bool
  pub touch : String → Bool
  pub zones_in : String → Zones
  pub content : String → Option String

-- The configuration of an instance
pub record InstanceConfig : Type 0 where
  pub type_ : Option String
  pub enabled : Bool
  pub zones_dir : Option String
  pub named_conf : Option String
  pub nsd_conf : Option String

pub data BackendType : Type 0 where
  bind_type : BackendType
  nsd_type : BackendType

-- `_backend_types`
unfoldable pub backend_type : String → Option BackendType
backend_type name =
    if name == "bind" then some bind_type else if name == "nsd" then some nsd_type else none

abbrev or_default : String → Option String → String
or_default s none = s
or_default s (some t) = t

pub record Registry : Type 0 where
  pub backend_instances : List (String × BackendInstance)
  pub initialized : Bool

abbrev pub new_registry : Registry
new_registry = record { backend_instances = []; initialized = false }

module _ (m : Machine) where
  unfoldable pub is_available : BackendType → Bool
  is_available bind_type = m.named_runs
  is_available nsd_type = m.nsd_control_found

  -- The text of a configuration file, which is created empty if it is missing.
  abbrev created : String → Option String → Result String
  created path (some text) = ok text
  created path none = if m.touch path then ok "" else raised io_error

  abbrev new_bind : String → Result String → Result BackendInstance
  new_bind zones_dir (raised e) = raised e
  new_bind zones_dir (ok text) = ok (
      bind (record {
        zones_dir = zones_dir;
        zones = m.zones_in zones_dir;
        named_conf = text;
        reloads = [];
        calls = 0;
      }))

  -- A key that is missing raises, as does a directory that cannot be set up.
  unfoldable pub init_bind : Option String → Option String → Result BackendInstance
  init_bind (some zones_dir) (some named_conf) =
      if m.set_up zones_dir
      then new_bind zones_dir (created named_conf (m.content named_conf))
      else raised io_error
  init_bind _ _ = raised other

  abbrev new_nsd : String → Result String → Result BackendInstance
  new_nsd zones_dir (raised e) = raised e
  new_nsd zones_dir (ok text) = ok (
      nsd (record {
        zones_dir = zones_dir;
        zones = m.zones_in zones_dir;
        nsd_conf = some text;
        reloads = [];
        calls = 0;
      }))

  unfoldable pub init_nsd : Option String → Option String → Result BackendInstance
  init_nsd zones_dir nsd_conf =
      let dir = or_default "/etc/nsd/zones" zones_dir in
      let conf = or_default "/etc/nsd/nsd.conf.d/zones.conf" nsd_conf in
      if m.set_up dir then new_nsd dir (created conf (m.content conf)) else raised io_error

  unfoldable pub new_backend : BackendType → InstanceConfig → Result BackendInstance
  unfolding init_bind init_nsd
  new_backend bind_type config = init_bind config.zones_dir config.named_conf
  new_backend nsd_type config = init_nsd config.zones_dir config.nsd_conf

  abbrev or_none : Result BackendInstance → Option BackendInstance
  or_none (ok b) = some b
  or_none (raised e) = none

  abbrev load_type : Option BackendType → InstanceConfig → Option BackendInstance
  load_type none config = none
  load_type (some t) config =
      if is_available t && config.enabled then or_none (new_backend t config) else none

  abbrev load_named : Option String → InstanceConfig → Option BackendInstance
  load_named none config = none
  load_named (some name) config = if truthy name then load_type (backend_type name) config else none

  -- The instance of one entry, if it is of a known type, available and enabled, and can be made
  unfoldable pub load_instance : InstanceConfig → Option BackendInstance
  unfolding backend_type is_available new_backend
  load_instance config = load_named config.type_ config

  abbrev put_instance :
      String
      → Option BackendInstance
      → List (String × BackendInstance)
      → List (String × BackendInstance)
  put_instance name none rest = rest
  put_instance name (some b) rest = (name, b) ∷ rest

  -- The loop over the entries
  unfoldable pub load_instances : List (String × InstanceConfig) → List (String × BackendInstance)
  unfolding load_instance
  load_instances [] = []
  load_instances ((name, config) ∷ rest) =
      put_instance name (load_instance config) (load_instances rest)

  -- A configuration without `dns` or `dns.backends` is one without entries.
  abbrev pub initialize_backends : List (String × InstanceConfig) → Registry → Registry
  initialize_backends configs r =
      if r.initialized
      then r
      else record { backend_instances = load_instances configs; initialized = true }
