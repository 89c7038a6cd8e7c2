-- ===== src/Tests/Main.antt =====
-- The theorems on the start of the program: the configuration, the database and the server.
use directdnsonly.Base.{
  String, Bool, true, false, ◌&&◌, ◌||◌, arith, ◌≡◌, ◌≢◌, refl, Option, none, some, List, [], ◌∷◌,
  if◌then◌else◌, ◌==◌, string_eq,
}
use directdnsonly.Base.Exec.{Result, ok, raised, other}
use directdnsonly.Base.Text.{lower}
use directdnsonly.Config.{Value, text, Vyper}
use directdnsonly.Config.Defaults.{IsVyper, or_default}
use directdnsonly.Main.{Call, mount, Outside, main}
use directdnsonly.Main.Starts.{Ended, main-Ended}
use directdnsonly.Main.Access.{
  Cherrypy, lies_under, IsCherrypy, lets_through, is_login, lets_through-main,
}
use directdnsonly.Schema.{Datastore, connect, connect_default}
use directdnsonly.Schema.Default.{connect-ne-connect_default}

abbrev default_in : String → List (String × Value) → Option Value
default_in k [] = none
default_in k ((j, v) ∷ ds) = if lower k == lower j then some v else default_in k ds

-- A file that sets one key
abbrev set_in_file : String → Option Value
set_in_file k = if k == "datastore.type" then some (text "mysql") else none

abbrev vyper : Vyper
vyper = record {
  State = List (String × Value);
  configure = λ x s. s;
  set_default = λ j v s. (j, v) ∷ s;
  read_in_config = λ s. (ok true, s);
  get = λ k s. or_default (set_in_file k) (default_in k s);
  given = λ k s. set_in_file k;
  default_of = default_in;
}

vyper-IsVyper : IsVyper vyper
vyper-IsVyper = record {
  get_given = λ k v s h. rw h refl;
  get_default = λ k s h. rw h refl;
  set_default_lem = λ k j v s. refl;
  configure_keeps = λ k x s. refl;
  read_keeps = λ k s. refl;
}

abbrev of_server : Datastore
of_server = record {
  db_location = some "data/directdns.db";
  user = some "u";
  host = some "h";
  name = some "n";
  pass = some "p";
  port = "3306";
}

abbrev mysql : String
mysql = "mysql+pymysql://u:p@h:3306/n"

abbrev sqlite : String
sqlite = "sqlite:///data/directdns.db"

connect-ne-connect_default_example : mysql ≢ sqlite
unfolding connect connect_default string_eq
connect-ne-connect_default_example = connect-ne-connect_default of_server mysql sqlite refl refl

-- A start whose mounting of the applications raises
abbrev ending : Call → Result (Unit {0})
ending mount = raised other
ending c = ok tt

abbrev outside : Outside
outside = record {
  ends = ending;
  get = set_in_file;
  get_string = λ k. "info";
  get_int = λ k. 2222;
  get_bool = λ k. true;
  is_true = λ o. false;
  version = "1";
  configured = record {
    reconciler = record {
      enabled = true;
      dry_run = false;
      servers = record { hostname = some "da1" } ∷ [];
      interval_seconds = 3600;
      initial_delay = 0;
      stop_event = false;
      has_thread = false;
    };
    peer_syncer = record { enabled = false; peers = []; stop_event = false; has_thread = false };
  };
}

main-Ended_example : Ended outside (main outside)
main-Ended_example = main-Ended outside

abbrev logins : List (String × String) → String → String → Bool
logins [] u p = false
logins ((user, password) ∷ rest) u p = u == user && p == password || logins rest u p

abbrev check_in :
    (String → String → Bool)
    → List (String × (String → String → Bool))
    → String
    → String
    → String
    → Bool
check_in server [] path = server
check_in server ((section, check) ∷ rest) path =
    if lies_under section path then check else check_in server rest path

abbrev cherrypy : Cherrypy
cherrypy = record {
  Check = String → String → Bool;
  checkpassword_dict = logins;
  accepts = λ c u p. c u p;
  check_at = check_in;
}

cherrypy-IsCherrypy : IsCherrypy cherrypy
cherrypy-IsCherrypy = record {
  accepts-checkpassword_dict = λ user password u p. ground arith;
  check_below = λ server check section path h. rw h refl;
  check_elsewhere = λ server check section path h. rw h refl;
}

-- A start in which no call raises
abbrev running : Outside
running = record outside { ends = λ c. ok tt; get_string = λ k. k }

lets_through-main_example :
    lets_through cherrypy (main running).1 "/internal/zones" "peer_sync.auth_username" "p" ≡ (
      if lies_under "/internal" "/internal/zones"
      then is_login cherrypy cherrypy-IsCherrypy running "peer_sync.auth_username"
          "peer_sync.auth_password" "peer_sync.auth_username" "p"
      else is_login cherrypy cherrypy-IsCherrypy running "app.auth_username" "app.auth_password"
          "peer_sync.auth_username" "p")
unfolding main
lets_through-main_example =
    lets_through-main cherrypy cherrypy-IsCherrypy running (main running).1 "/internal/zones"
      "peer_sync.auth_username" "p" refl
