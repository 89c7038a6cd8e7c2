-- ===== src/Main/Access.antt =====
-- Whose requests the server that directdnsonly/main.py starts lets through. What CherryPy makes of the
-- credentials and of the section of a path is a parameter.
use mathlib.Core.Path.{ap₂, subst}
use text.Mathlib.Text.{starts_with}
use directdnsonly.Base.{
  String, ◌<>◌, ◌≡◌, ap, ◌∙◌, Bool, true, false, ◌&&◌, ◌||◌, Option, some, List, [], ◌∷◌,
  if◌then◌else◌, ◌==◌, string_eq, Bool-cases, inl, inr,
}
use directdnsonly.Main.{Outside, Server, served, main}
use directdnsonly.Main.Starts.{Ended, main-Ended}

-- The part of CherryPy: what `checkpassword_dict` makes of a dict of users and their passwords, and
-- which check holds for a path, by that of the whole server and those of the mounted sections.
pub record Cherrypy : Type 1 where
  pub Check : Type 0
  pub checkpassword_dict : List (String × String) → Check
  pub accepts : Check → String → String → Bool
  pub check_at : Check → List (String × Check) → String → Check

-- The path is that of the section, or lies below it.
abbrev pub lies_under : String → String → Bool
lies_under section path = path == section || starts_with path (section <> "/")

-- What is documented: a dict of one user lets that user through with that password, and the setting of
-- a section holds for its path and all below it.
pub record IsCherrypy (C : Cherrypy) : Type 0 where
  pub accepts-checkpassword_dict :
      (user password u p : String)
      → C.accepts (C.checkpassword_dict ((user, password) ∷ [])) u p ≡ (u == user && p == password)
  pub check_below :
      (server check : C.Check) (section path : String)
      → lies_under section path ≡ true
      → C.check_at server ((section, check) ∷ []) path ≡ check
  pub check_elsewhere :
      (server check : C.Check) (section path : String)
      → lies_under section path ≡ false
      → C.check_at server ((section, check) ∷ []) path ≡ server

module _ (C : Cherrypy) where
  open C use {checkpassword_dict, accepts, check_at}

  -- The check of a path, if the server and the section of the peers have their credentials
  abbrev pub let_through :
      Option (String × String) → Option (String × String) → String → String → String → Bool
  let_through (some own) (some peer) path u p =
      accepts
        (check_at (checkpassword_dict (own ∷ []))
          (("/internal", checkpassword_dict (peer ∷ [])) ∷ []) path)
        u p
  let_through _ _ path u p = false

  unfoldable pub lets_through : Server → String → String → String → Bool
  lets_through s path u p = let_through s.credentials s.peer_credentials path u p

  module _ (L : IsCherrypy C) (O : Outside) where
    open O use {get_string}

    -- The user and the password are those of a part of the configuration.
    abbrev pub is_login : String → String → String → String → Bool
    is_login username password u p = u == get_string username && p == get_string password

    let_through_lem :
        (own peer : String × String) (path u p : String)
        → let_through (some own) (some peer) path u p ≡ (
            if lies_under "/internal" path
            then u == peer.0 && p == peer.1
            else u == own.0 && p == own.1)
    let_through_lem own peer path u p = elim (Bool-cases (lies_under "/internal" path)) [
      | inl below ↦ rw below (
          ap (λ c. accepts c u p)
            (L.check_below (checkpassword_dict (own ∷ [])) (checkpassword_dict (peer ∷ []))
              "/internal" path below)
          ∙ L.accepts-checkpassword_dict peer.0 peer.1 u p)
      | inr elsewhere ↦ rw elsewhere (
          ap (λ c. accepts c u p)
            (L.check_elsewhere (checkpassword_dict (own ∷ [])) (checkpassword_dict (peer ∷ []))
              "/internal" path elsewhere)
          ∙ L.accepts-checkpassword_dict own.0 own.1 u p)
    ]

    -- If CherryPy keeps its assumptions, a server that has been started lets a request through exactly
    -- with the user and the password of `peer_sync` where the path is /internal or lies below it, and
    -- exactly with those of `app` elsewhere.
    pub lets_through-main :
        (s : Server) (path u p : String)
        → main O ≡ (served, s)
        → lets_through s path u p ≡ (
            if lies_under "/internal" path
            then is_login "peer_sync.auth_username" "peer_sync.auth_password" u p
            else is_login "app.auth_username" "app.auth_password" u p)
    unfolding lets_through
    lets_through-main s path u p e =
        let (manager, engine, stops, own, peer) = subst (Ended O) e (main-Ended O) in
        ap₂ (λ a b. let_through a b path u p) own peer
        ∙ let_through_lem (get_string "app.auth_username", get_string "app.auth_password")
            (get_string "peer_sync.auth_username", get_string "peer_sync.auth_password") path u p
