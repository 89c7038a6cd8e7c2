-- ===== src/Admin.antt =====
-- directdnsonly/app/api/admin.py: the handler of DirectAdmin's requests. CherryPy and the decoding of
-- a query or a form are not part of the repository: a request here holds the parameters as the handler
-- merges them, each with one value, and what the body reads as where no zone file is among them.
pub mod Queued
pub mod Exists
pub mod Debug
use directdnsonly.Base.{
  ℕ, String, Bool, true, false, not, ◌&&◌, ◌||◌, Option, none, some, if◌then◌else◌, ◌==◌, leb,
  string_eq, option_eq, truthy, truthy?,
}
use directdnsonly.Base.Exec.{Exec, Exc, Result, ok, raised, value_error, pure, raise, ◌>>=◌, ◌>>◌}
use directdnsonly.Database.{Domain}
use directdnsonly.Zone.{validate_and_normalize_zone}
use directdnsonly.Index.{
  check_zone_exists, check_parent_domain_owner, get_domain_record, get_parent_domain_record,
}
use directdnsonly.Worker.State.{Item, Host, Manager}

pub record Params : Type 0 where
  pub action : Option String
  pub domain : Option String
  pub zone_file : Option String
  pub hostname : Option String
  pub username : Option String
  pub check_for_parent_domain : Option String

pub data Method : Type 0 where
  get : Method
  post : Method
  other_method : Method

pub record Request : Type 0 where
  pub method : Method
  pub params : Params
  pub body : Result String

-- The answers, by their status; the texts are left out.
pub data Answer : Type 0 where
  done : Answer
  not_found : Answer
  exists_on : Option String → Answer
  parent_on : Option String → Answer
  parent_owned_by : String → String → Answer
  bad_request : Answer
  not_allowed : Answer

-- `params.get(name, "")`
abbrev pub or_empty : Option String → String
or_empty none = ""
or_empty (some s) = s

unfoldable pub push_item : String → String → Params → Item
push_item domain normalized_zone params = record {
  domain = some domain;
  zone_file = some normalized_zone;
  hostname = some (or_empty params.hostname);
  username = some (or_empty params.username);
  source = none;
  failed_backends = none;
  retry_count = none;
  retry_after = none;
}

unfoldable pub removal_item : String → Params → Item
removal_item domain params = record {
  domain = some domain;
  zone_file = none;
  hostname = some (or_empty params.hostname);
  username = some (or_empty params.username);
  source = none;
  failed_backends = none;
  retry_count = none;
  retry_after = none;
}

abbrev pub found_domain : Option Domain → Answer
found_domain none = bad_request
found_domain (some r) = exists_on r.hostname

abbrev pub found_parent : ℕ → Option Domain → Answer
found_parent cluster_check none = bad_request
found_parent cluster_check (some r) =
    if leb 1 cluster_check
    then parent_owned_by (or_empty r.hostname) (or_empty r.username)
    else parent_on r.hostname

module _ (H : Host) where
  open H use {database, queues, from_text}

  abbrev pub queue_save : String → Params → Result String → Exec (Manager H) Answer
  queue_save domain params (raised e) m = (raised e, m)
  queue_save domain params (ok zone) m =
      (ok done, record m { save_queue = queues.put (push_item domain zone params) m.save_queue })

  abbrev pub save_zone : String → Params → Option String → Exec (Manager H) Answer
  save_zone domain params none m = (raised value_error, m)
  save_zone domain params (some zone_data) m =
      if truthy zone_data
      then queue_save domain params (validate_and_normalize_zone from_text zone_data domain) m
      else (raised value_error, m)

  -- `_handle_rawsave`
  unfoldable pub handle_rawsave : String → Params → Exec (Manager H) Answer
  unfolding validate_and_normalize_zone push_item
  handle_rawsave domain params m = save_zone domain params params.zone_file m

  -- `_handle_delete`
  unfoldable pub handle_delete : String → Params → Exec (Manager H) Answer
  unfolding removal_item
  handle_delete domain params m =
      (ok done, record m { delete_queue = queues.put (removal_item domain params) m.delete_queue })

  abbrev pub handle_action : String → Option String → Params → Exec (Manager H) Answer
  handle_action action none params m = (raised value_error, m)
  handle_action action (some domain) params m =
      if not (truthy domain)
      then (raised value_error, m)
      else if action == "rawsave"
      then handle_rawsave domain params m
      else if action == "delete"
      then handle_delete domain params m
      else (raised value_error, m)

  -- A request without an action is a check of the connection.
  abbrev pub handle_params : Params → Option String → Exec (Manager H) Answer
  handle_params params none m = (ok done, m)
  handle_params params (some action) m =
      if truthy action then handle_action action params.domain params m else (ok done, m)

  -- Where no zone file is among the parameters the body is one.
  abbrev pub with_body : Params → Option String → Result String → Exec (Manager H) Answer
  with_body params (some zone_file) body m = handle_params params params.action m
  with_body params none (ok text) m =
      handle_params (record params { zone_file = some text }) params.action m
  with_body params none (raised e) m = (raised e, m)

  unfoldable pub handle_post : Request → Exec (Manager H) Answer
  unfolding handle_rawsave handle_delete
  handle_post r m = with_body r.params r.params.zone_file r.body m

  -- `except Exception`: the status is 400.
  abbrev pub status_of : Result Answer → Answer
  status_of (ok answer) = answer
  status_of (raised e) = bad_request

  unfoldable pub answer_post : Request → Manager H → Answer × Manager H
  unfolding handle_post
  answer_post r m = let (a, m') = handle_post r m in (status_of a, m')

  abbrev pub exists_answer : ℕ → String → Bool → database.Table → Answer
  exists_answer cluster_check domain check_parent t =
      let domain_exists = check_zone_exists database domain t in
      let parent_exists = check_parent && check_parent_domain_owner database domain t in
      if not domain_exists && not parent_exists
      then not_found
      else if domain_exists
      then found_domain (get_domain_record database domain t)
      else found_parent cluster_check (get_parent_domain_record database domain t)

  -- `_handle_exists`; a record that is None would raise, which the caller answers with 400.
  unfoldable pub handle_exists : ℕ → Params → database.Table → Answer
  unfolding check_zone_exists check_parent_domain_owner get_domain_record get_parent_domain_record
  handle_exists cluster_check params t =
      if params.action == some "exists"
      then (elim params.domain [
        | none ↦ bad_request
        | some domain ↦
            if truthy domain
            then exists_answer cluster_check domain (truthy? params.check_for_parent_domain) t
            else bad_request
      ])
      else bad_request

  -- `CMD_API_DNS_ADMIN`
  unfoldable pub answer : ℕ → Request → Manager H → Answer × Manager H
  unfolding answer_post handle_exists
  answer cluster_check r m = elim r.method [
    | get ↦ (handle_exists cluster_check r.params m.table, m)
    | post ↦ answer_post r m
    | other_method ↦ (not_allowed, m)
  ]
