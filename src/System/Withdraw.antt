-- ===== src/System/Withdraw.antt =====
-- A delete from the request (directdnsonly/app/api/admin.py) over the delete worker
-- (directdnsonly/worker.py) to the backends and to what the peers are served
-- (directdnsonly/app/api/internal.py).
use directdnsonly.Base.{
  ℕ, String, ◌≡◌, refl, ap, ◌∙◌, true, false, Option, none, some, [], ◌∷◌, ◌++◌, if◌then◌else◌,
  ◌==◌, string_eq, option_eq, nat_eq, truthy, contains,
}
use directdnsonly.Base.Exec.{Result, ok}
use directdnsonly.Backend.Store.{Files}
use directdnsonly.Database.{Domain, IsReliable}
use directdnsonly.Admin.{
  Params, Request, Answer, done, removal_item, handle_delete, handle_action, handle_params,
  with_body, handle_post, status_of, answer_post,
}
use directdnsonly.Internal.{zone_answer, served_zone, list_zones}
use directdnsonly.Internal.Served.{names, served_zone-served_zones}
use directdnsonly.Worker.State.{Host, IsHost, Manager}
use directdnsonly.Worker.Backends.Files.{IsServer}
use directdnsonly.Worker.Backends.Outcomes.{AllSucceed, instance_of}
use directdnsonly.Worker.Delete.{or_empty, session_row, deleted, delete_item}
use directdnsonly.Worker.Delete.Ownership.{
  IsOwnedBy, is_foreign-IsOwnedBy, delete_call, delete_item-deleted, delete_item-succeeds,
}
use directdnsonly.Worker.Delete.Gone.{Lacks, delete_item-Lacks}

-- The request asks to delete a zone, and its body can be decoded.
pub record IsDelete (r : Request) (d text : String) : Type 0 where
  pub action : r.params.action ≡ some "delete"
  pub domain : r.params.domain ≡ some d
  pub named : truthy d ≡ true
  pub decoded : r.body ≡ ok text

module _ (H : Host) (L : IsHost H) where
  open H use {database, queues}

  -- What the handler answers and does
  abbrev answered : Params → String → Manager H → Result Answer × Manager H
  answered params d m =
      (ok done, record m { delete_queue = queues.put (removal_item d params) m.delete_queue })

  delete_action :
      (params : Params) (d : String) (o : Option String) (m : Manager H)
      → o ≡ some d
      → truthy d ≡ true
      → handle_action H "delete" o params m ≡ answered params d m
  unfolding string_eq handle_delete
  delete_action params d o m e named = rw (e, named) refl

  with_delete :
      (params : Params) (d : String) (o : Option String) (m : Manager H)
      → o ≡ some "delete"
      → params.domain ≡ some d
      → truthy d ≡ true
      → handle_params H params o m ≡ answered params d m
  unfolding string_eq
  with_delete params d o m e domain named =
      rw e (delete_action params d params.domain m domain named)

  any_body :
      (params : Params) (d text : String) (o : Option String) (body : Result String) (m : Manager H)
      → params.action ≡ some "delete"
      → params.domain ≡ some d
      → truthy d ≡ true
      → body ≡ ok text
      → with_body H params o body m ≡ answered params d m
  unfolding removal_item
  any_body params d text (some z) body m e domain named decoded =
      with_delete params d params.action m e domain named
  any_body params d text none body m e domain named decoded =
      rw decoded
        (with_delete (record params { zone_file = some text }) d params.action m e domain named)

  accepted_delete :
      (r : Request) (d text : String) (m : Manager H)
      → IsDelete r d text
      → answer_post H r m
        ≡ (done, record m { delete_queue = queues.put (removal_item d r.params) m.delete_queue })
  unfolding answer_post handle_post
  accepted_delete r d text m v =
      ap (λ (p : Result Answer × Manager H). (status_of H p.0, p.1))
        (any_body r.params d text r.params.zone_file r.body m v.action v.domain v.named v.decoded)

  module _ (files : Files H.Instance) (I : IsServer files H.backend) (isoformat : ℕ → String) where
    -- If the host keeps its assumptions, its backends are stores of zone files and the database is reliable,
    -- then a request to delete a domain, whose body can be decoded, is answered with success and queues
    -- one item behind what waits. Whenever the delete worker handles that item, in any later state in
    -- which the domain has a row that, as the session of the worker reads it, names no owner or the host
    -- of the request, and every backend reports success, it reports the zone as deleted; then a peer that asks for the zone is answered
    -- with status 404, the list of zones does not name it, every other row is as before, and no backend
    -- has a file of the zone.
    pub answer_post-Withdrawn :
        (r : Request) (d text n : String) (m later : Manager H) (row : Domain) (s : H.Instance)
        → IsDelete r d text
        → IsReliable database
        → session_row d later.session_record (database.find d later.table) ≡ some row
        → IsOwnedBy (or_empty r.params.hostname) row
        → AllSucceed (delete_call H d later.table) later.backends
        → instance_of n later.backends ≡ some s
        → let (answer, m1) = answer_post H r m in
          let item = removal_item d r.params in
          let (outcome, after) = delete_item H item later in
          (answer ≡ done)
          × (queues.items m1.delete_queue ≡ queues.items m.delete_queue ++ (item ∷ []))
          × (outcome ≡ ok deleted)
          × (served_zone database isoformat d after.table
              ≡ record { status_code = 404; json = ok none })
          × (contains (names (list_zones isoformat (database.all after.table))) (some d) ≡ false)
          × ((k : String)
              → database.find k after.table
                ≡ (if k == d then none else database.find k later.table))
          × Lacks H L files I n d s after.backends
    unfolding removal_item served_zone nat_eq
    answer_post-Withdrawn r d text n m later row s asked R found owner all there =
        let answers = accepted_delete r d text m asked in
        let item = removal_item d r.params in
        let gone : (delete_item H item later).0 ≡ ok deleted =
          delete_item-succeeds H L item later d row R refl found
            ((is_foreign-IsOwnedBy row item).1 owner) all in
        let (there_was, was, read, owned, succeeded, rows) =
          delete_item-deleted H L item later d refl gone in
        let (missing, lacks) = delete_item-Lacks H L files I item d n later s refl gone there in
        let after = (delete_item H item later).1.table in
        let unserved : served_zone database isoformat d after
            ≡ record { status_code = 404; json = ok none } =
          ap zone_answer missing in
        (
          ap (λ (p : Answer × Manager H). p.0) answers,
          ap (λ (p : Answer × Manager H). queues.items p.1.delete_queue) answers
              ∙ L.queues.items-put item m.delete_queue,
          gone,
          unserved,
          served_zone-served_zones L.database isoformat d after
              ∙ ap (λ p. p.status_code == 200) unserved,
          rows,
          lacks,
        )
