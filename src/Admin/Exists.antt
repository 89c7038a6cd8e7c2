-- ===== src/Admin/Exists.antt =====
-- What a check for a zone answers (directdnsonly/app/api/admin.py, `_handle_exists`).
use directdnsonly.Base.{
  ℕ, String, ◌≡◌, true, Option, none, some, arith, truthy, truthy?, string_eq, option_eq,
  if◌then◌else◌, nat_eq,
}
use directdnsonly.Database.{Domain}
use directdnsonly.Index.{
  check_zone_exists, check_parent_domain_owner, get_domain_record, get_parent_domain_record,
}
use directdnsonly.Index.Parent.{behind_dot, parent_domain_lem}
use directdnsonly.Worker.State.{Host}
use directdnsonly.Admin.{Params, Answer, not_found, exists_on, found_parent, handle_exists}

-- The answer by the row of the domain and that of its parent.
abbrev pub answer_by : ℕ → Option Domain → Option Domain → Answer
answer_by cluster_check (some r) parent = exists_on r.hostname
answer_by cluster_check none (some p) = found_parent cluster_check (some p)
answer_by cluster_check none none = not_found

-- The row of the parent, if its name is not blank
abbrev pub parent_row : (H : Host) → String → H.database.Table → Option Domain
parent_row H d t =
    let parent = behind_dot d in if truthy parent then H.database.find parent t else none

-- A check for a domain that is not blank is answered by the domain's row if there is one, else, if the
-- request asks for it, by the row of the name behind the first dot, if that is not blank, and else
-- negatively: no record that the handler reads is missing.
pub handle_exists_lem :
    (H : Host) (cluster_check : ℕ) (params : Params) (d : String) (t : H.database.Table)
    → params.action ≡ some "exists"
    → params.domain ≡ some d
    → truthy d ≡ true
    → handle_exists H cluster_check params t
      ≡ answer_by cluster_check
          (H.database.find d t)
          (if truthy? params.check_for_parent_domain then parent_row H d t else none)
unfolding handle_exists check_zone_exists check_parent_domain_owner get_domain_record
    get_parent_domain_record
handle_exists_lem H cluster_check params d t asks named real = ground (arith, parent_domain_lem d)
