-- ===== src/System/Publish.antt =====
-- A push from the request (directdnsonly/app/api/admin.py) over the save worker (directdnsonly/worker.py)
-- to the backends and to what the peers are served (directdnsonly/app/api/internal.py).
use mathlib.Core.Path.{ap₂, subst}
use directdnsonly.Base.{
  ℕ, String, ◌≡◌, refl, sym, ap, ◌∙◌, Bool, true, Option, some, List, [], ◌∷◌, ◌++◌, string_eq,
  option_eq, truthy, arith, none, ◌⊎◌, inl, inr,
}
use directdnsonly.Base.Exec.{Result, ok}
use directdnsonly.Backend.Store.{Files}
use directdnsonly.Database.{Domain, IsReliable}
use directdnsonly.Index.{register}
use directdnsonly.Index.Ownership.{register_lem}
use directdnsonly.Zone.{validate_and_normalize_zone}
use directdnsonly.Admin.{
  Params, Request, Answer, done, push_item, save_zone, handle_rawsave, handle_action, handle_params,
  with_body, handle_post, status_of, answer_post,
}
use directdnsonly.Internal.{zone_answer, served_zone}
use directdnsonly.Worker.State.{Host, IsHost, Manager}
use directdnsonly.Worker.Backends.{targets}
use directdnsonly.Worker.Backends.Files.{IsServer}
use directdnsonly.Worker.Backends.Outcomes.{AllSucceed, instance_of}
use directdnsonly.Worker.Save.{is_retry, process_item}
use directdnsonly.Worker.Save.Writes.{write_call}
use directdnsonly.Worker.Save.Outcome.{process_item-Stored}
use directdnsonly.Worker.Save.Published.{Holds, process_item-Holds}

-- The request asks to save a zone, which is accepted as `zone`.
pub record IsPush (H : Host) (r : Request) (d text zone : String) : Type 0 where
  pub action : r.params.action ≡ some "rawsave"
  pub domain : r.params.domain ≡ some d
  pub named : truthy d ≡ true
  -- the text is among the parameters, else it is the body
  pub zone_file :
      (r.params.zone_file ≡ some text) ⊎ ((r.params.zone_file ≡ none) × (r.body ≡ ok text))
  pub filed : truthy text ≡ true
  pub accepted : validate_and_normalize_zone H.from_text text d ≡ ok zone

some_backend :
    {S : Type 0} (n : String) (bs : List (String × S)) (s : S)
    → instance_of n bs ≡ some s
    → (b : String × S) × (rest : List (String × S)) × (bs ≡ b ∷ rest)
some_backend n [] s h = absurd (cc h)
some_backend n (b ∷ rest) s h = (b, rest, refl)

module _ (H : Host) (L : IsHost H) where
  open H use {database, queues}

  saved_zone :
      (params : Params) (d text zone : String) (o : Option String) (m : Manager H)
      → o ≡ some text
      → truthy text ≡ true
      → validate_and_normalize_zone H.from_text text d ≡ ok zone
      → save_zone H d params o m
        ≡ (ok done, record m { save_queue = queues.put (push_item d zone params) m.save_queue })
  saved_zone params d text zone o m e filed valid = rw (e, filed, valid) refl

  rawsave_action :
      (params : Params) (d : String) (o : Option String) (m : Manager H)
      → o ≡ some d
      → truthy d ≡ true
      → handle_action H "rawsave" o params m ≡ handle_rawsave H d params m
  unfolding string_eq
  rawsave_action params d o m e named = rw (e, named) refl

  with_action :
      (params : Params) (o : Option String) (m : Manager H)
      → o ≡ some "rawsave"
      → handle_params H params o m ≡ handle_action H "rawsave" params.domain params m
  unfolding string_eq
  with_action params o m e = rw e refl

  pushed :
      (params : Params) (d text zone : String) (m : Manager H)
      → params.action ≡ some "rawsave"
      → params.domain ≡ some d
      → truthy d ≡ true
      → params.zone_file ≡ some text
      → truthy text ≡ true
      → validate_and_normalize_zone H.from_text text d ≡ ok zone
      → handle_params H params params.action m
        ≡ (ok done, record m { save_queue = queues.put (push_item d zone params) m.save_queue })
  unfolding handle_rawsave
  pushed params d text zone m action domain named there filed accepted =
      with_action params params.action m action
      ∙ rawsave_action params d params.domain m domain named
      ∙ saved_zone params d text zone params.zone_file m there filed accepted

  -- The answer, and what waits for the save worker
  accepted_push :
      (r : Request) (d text zone : String) (m : Manager H)
      → IsPush H r d text zone
      → answer_post H r m
        ≡ (done, record m { save_queue = queues.put (push_item d zone r.params) m.save_queue })
  unfolding answer_post handle_post handle_rawsave push_item
  accepted_push r d text zone m v =
      let handled : handle_post H r m ≡ (
        ok done,
        record m { save_queue = queues.put (push_item d zone r.params) m.save_queue },
      ) =
        elim v.zone_file [
          | inl there ↦
              ap (λ o. with_body H r.params o r.body m) there
              ∙ pushed r.params d text zone m v.action v.domain v.named there v.filed v.accepted
          | inr (missing, body) ↦
              ap₂ (λ o b. with_body H r.params o b m) missing body
              ∙ pushed (record r.params { zone_file = some text }) d text zone m v.action v.domain
                  v.named refl v.filed v.accepted
        ] in
      ap (λ (p : Result Answer × Manager H). (status_of H p.0, p.1)) handled

  holder :
      (row : Domain) (zone : String)
      → row.zone_data ≡ some zone
      → zone_answer (some row) ≡ record { status_code = 200; json = ok (some zone) }
  holder row zone e = rw (e, zone_answer) refl

  module _ (files : Files H.Instance) (I : IsServer files H.backend) (isoformat : ℕ → String) where
    -- If the host keeps its assumptions, its backends are stores of zone files and the database is reliable,
    -- then a push whose zone, among the parameters or else as the body, is accepted is answered with success and queues one item behind what
    -- waits. Whenever the save worker handles that item, in any later state in which every backend takes
    -- the zone, the item counts as processed, a peer that asks for the zone is answered with status 200
    -- and the accepted text, and each backend holds that text in the file of the domain.
    pub answer_post-Published :
        (r : Request) (d text zone n : String) (m later : Manager H) (s : H.Instance)
        → IsPush H r d text zone
        → IsReliable database
        → instance_of n later.backends ≡ some s
        → let item = push_item d zone r.params in
          AllSucceed
            (write_call H d zone (register database d item.hostname item.username later.table).1)
            later.backends
          → let (answer, m1) = answer_post H r m in
            let (processed, after) = process_item H item later in
            (answer ≡ done)
            × (queues.items m1.save_queue ≡ queues.items m.save_queue ++ (item ∷ []))
            × (processed ≡ ok true)
            × (served_zone database isoformat d after.table
                ≡ record { status_code = 200; json = ok (some zone) })
            × Holds H L files I n d zone s after.backends
    unfolding push_item served_zone targets is_retry option_eq
    answer_post-Published r d text zone n m later s push R there all =
        let answered = accepted_push r d text zone m push in
        let item = push_item d zone r.params in
        let t = (register database d item.hostname item.username later.table).1 in
        let (u, e, g) =
          register_lem database L.database R d item.hostname item.username later.table in
        let registered : register database d item.hostname item.username later.table
            ≡ (ok true, t) =
          e ∙ ap (λ (p : Result Bool × database.Table). (ok true, p.1)) (sym e) in
        let (b, bs, shape) = some_backend n later.backends s there in
        let (processed, same_retries, same_dead, row, owner, text_kept, rows) =
          process_item-Stored H L item later d zone R refl refl refl shape registered
            (subst (AllSucceed (write_call H d zone t)) shape all) in
        let found : database.find d (process_item H item later).1.table ≡ some row =
          rows d ∙ ground arith in
        (
          ap (λ (p : Answer × Manager H). p.0) answered,
          ap (λ (p : Answer × Manager H). queues.items p.1.save_queue) answered
              ∙ L.queues.items-put item m.save_queue,
          processed,
          ap zone_answer found ∙ holder row zone text_kept,
          process_item-Holds H L files I item d zone n later s refl refl processed there,
        )
