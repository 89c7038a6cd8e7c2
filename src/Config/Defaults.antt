-- ===== src/Config/Defaults.antt =====
-- What a key of the configuration is answered with.
use directdnsonly.Base.{
  String, ◌≡◌, refl, ap, ◌∙◌, Option, none, some, List, [], ◌∷◌, if◌then◌else◌, ◌==◌, string_eq,
}
use directdnsonly.Base.Text.{lower}
use directdnsonly.Config.{
  Value, Setting, Vyper, settings, defaults, configure_all, set_defaults, load_config,
}

-- What is documented of the package: a value that is given comes before a default, of two defaults
-- the later counts, keys are the same in small letters and in capitals, and the other settings and the
-- reading of a file change no default.
pub record IsVyper (V : Vyper) : Type 0 where
  pub get_given : (k : String) (v : Value) (s : V.State) → V.given k s ≡ some v → V.get k s ≡ some v
  pub get_default : (k : String) (s : V.State) → V.given k s ≡ none → V.get k s ≡ V.default_of k s
  pub set_default_lem :
      (k j : String) (v : Value) (s : V.State)
      → V.default_of k (V.set_default j v s)
        ≡ (if lower k == lower j then some v else V.default_of k s)
  pub configure_keeps :
      (k : String) (x : Setting) (s : V.State) → V.default_of k (V.configure x s) ≡ V.default_of k s
  pub read_keeps :
      (k : String) (s : V.State) → V.default_of k (V.read_in_config s).1 ≡ V.default_of k s

-- The last value that a list of calls has for a key, or `old`
abbrev pub last : String → List (String × Value) → Option Value → Option Value
last k [] old = old
last k ((j, v) ∷ ds) old = last k ds (if lower k == lower j then some v else old)

-- The value of a key that may be given
abbrev pub or_default : Option Value → Option Value → Option Value
or_default none d = d
or_default (some v) d = some v

module _ (V : Vyper) (L : IsVyper V) where
  open V use {State, get, given, default_of}

  default_of-set_defaults :
      (k : String) (ds : List (String × Value)) (s : State)
      → default_of k (set_defaults V ds s) ≡ last k ds (default_of k s)
  unfolding set_defaults
  default_of-set_defaults k [] s = refl
  default_of-set_defaults k ((j, v) ∷ ds) s =
      default_of-set_defaults k ds (V.set_default j v s)
      ∙ ap (last k ds) (L.set_default_lem k j v s)

  default_of-configure_all :
      (k : String) (xs : List Setting) (s : State)
      → default_of k (configure_all V xs s) ≡ default_of k s
  unfolding configure_all
  default_of-configure_all k [] s = refl
  default_of-configure_all k (x ∷ xs) s =
      default_of-configure_all k xs (V.configure x s) ∙ L.configure_keeps k x s

  answered : (k : String) (s : State) → get k s ≡ or_default (given k s) (default_of k s)
  answered k s = go (given k s) refl
    where
      go : (o : Option Value) → given k s ≡ o → get k s ≡ or_default o (default_of k s)
      go none e = L.get_default k s e
      go (some v) e = L.get_given k v s e

  -- If vyper keeps its assumptions, then whatever reading the file comes to, an instance that
  -- starts without a default for a key answers it with the value that the environment or a file
  -- gives, else with the last default of the source, if any.
  pub get-load_config :
      (k parent : String) (s : State)
      → default_of k s ≡ none
      → get k (load_config V parent s)
        ≡ or_default (given k (load_config V parent s)) (last k defaults none)
  unfolding load_config
  get-load_config k parent s fresh =
      let set = set_defaults V defaults (configure_all V (settings parent) s) in
      answered k (load_config V parent s)
      ∙ ap (or_default (given k (load_config V parent s))) (
          L.read_keeps k set
          ∙ default_of-set_defaults k defaults (configure_all V (settings parent) s)
          ∙ ap (last k defaults) (default_of-configure_all k (settings parent) s ∙ fresh))
