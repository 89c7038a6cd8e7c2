-- ===== src/Admin/Queued.antt =====
-- What a request queues (directdnsonly/app/api/admin.py).
use directdnsonly.Base.{
  ℕ, ◌+◌, String, ◌≡◌, refl, ap, Bool, true, false, not, Option, none, some, [], ◌∷◌, length,
  length-append, arith, truthy, truthy?, string_eq, option_eq, ◌==◌, if◌then◌else◌, ◌⊎◌, inl, inr,
}
use directdnsonly.Base.Exec.{Result, ok, raised, value_error}
use directdnsonly.Worker.State.{Item, Host, IsHost, Manager}
use directdnsonly.Zone.{validate_and_normalize_zone}
use directdnsonly.Admin.{
  Params, Request, Answer, bad_request, done, push_item, removal_item, queue_save, save_zone,
  handle_rawsave, handle_delete, handle_action, handle_params, with_body, handle_post, status_of,
  answer_post,
}

-- The request has an action.
abbrev pub has_action : Request → Bool
has_action r = truthy? r.params.action

module _ (H : Host) (L : IsHost H) where
  open H use {queues}

  -- The number of items that wait for the save and the delete worker.
  abbrev pub waiting : Manager H → ℕ
  waiting m = length (queues.items m.save_queue) + length (queues.items m.delete_queue)

  put_length :
      (i : Item) (q : queues.Queue)
      → length (queues.items (queues.put i q)) ≡ length (queues.items q) + 1
  put_length i q =
      omega (arith, ap length (L.queues.items-put i q), length-append (queues.items q) (i ∷ []))

  -- A step that raises does nothing, and one that returns has queued one item.
  abbrev QueuesOne : Manager H → Result Answer × Manager H → Type 0
  QueuesOne m (raised e, m') = m' ≡ m
  QueuesOne m (ok a, m') = (waiting m' ≡ waiting m + 1) × (a ≡ done)

  queue_save-QueuesOne :
      (d : String) (params : Params) (z : Result String) (m : Manager H)
      → QueuesOne m (queue_save H d params z m)
  queue_save-QueuesOne d params (raised e) m = refl
  queue_save-QueuesOne d params (ok z) m =
      (omega (arith, put_length (push_item d z params) m.save_queue), refl)

  save_zone-QueuesOne :
      (d : String) (params : Params) (z : Option String) (m : Manager H)
      → QueuesOne m (save_zone H d params z m)
  save_zone-QueuesOne d params none m = refl
  save_zone-QueuesOne d params (some z) m =
      elim (truthy z)
        as (λ b. QueuesOne m (
          if b
          then queue_save H d params (validate_and_normalize_zone H.from_text z d) m
          else (raised value_error, m))) [
            | true ↦ queue_save-QueuesOne d params (validate_and_normalize_zone H.from_text z d) m
            | false ↦ refl
          ]

  handle_delete-QueuesOne :
      (d : String) (params : Params) (m : Manager H) → QueuesOne m (handle_delete H d params m)
  unfolding handle_delete
  handle_delete-QueuesOne d params m =
      (omega (arith, put_length (removal_item d params) m.delete_queue), refl)

  handle_action-QueuesOne :
      (action : String) (d : Option String) (params : Params) (m : Manager H)
      → QueuesOne m (handle_action H action d params m)
  unfolding handle_rawsave
  handle_action-QueuesOne action none params m = refl
  handle_action-QueuesOne action (some d) params m =
      elim (truthy d)
        as (λ b. QueuesOne m (
          if not b
          then (raised value_error, m)
          else if action == "rawsave"
          then handle_rawsave H d params m
          else if action == "delete"
          then handle_delete H d params m
          else (raised value_error, m))) [
            | false ↦ refl
            | true ↦
                elim (action == "rawsave")
                  as (λ b. QueuesOne m (
                    if b
                    then handle_rawsave H d params m
                    else if action == "delete"
                    then handle_delete H d params m
                    else (raised value_error, m))) [
                      | true ↦ save_zone-QueuesOne d params params.zone_file m
                      | false ↦
                          elim (action == "delete")
                            as (λ b.
                              QueuesOne m (
                                if b
                                then handle_delete H d params m
                                else (raised value_error, m))) [
                                  | true ↦ handle_delete-QueuesOne d params m
                                  | false ↦ refl
                                ]
                    ]
          ]

  handle_params-QueuesOne :
      (params : Params) (action : Option String) (m : Manager H)
      → truthy? action ≡ true
      → QueuesOne m (handle_params H params action m)
  handle_params-QueuesOne params (some action) m h =
      rw h (handle_action-QueuesOne action params.domain params m)
  handle_params-QueuesOne params none m h = absurd (cc h)

  with_body-QueuesOne :
      (params : Params) (z : Option String) (body : Result String) (m : Manager H)
      → truthy? params.action ≡ true
      → QueuesOne m (with_body H params z body m)
  with_body-QueuesOne params (some z) body m h = handle_params-QueuesOne params params.action m h
  with_body-QueuesOne params none (ok text) m h =
      handle_params-QueuesOne (record params { zone_file = some text }) params.action m h
  with_body-QueuesOne params none (raised e) m h = refl

  -- What the client is told agrees with what was queued.
  abbrev pub Accounted : Manager H → Answer × Manager H → Type 0
  Accounted m p = ((p.0 ≡ bad_request) × (p.1 ≡ m)) ⊎ ((p.0 ≡ done) × (waiting p.1 ≡ waiting m + 1))

  accounted :
      (m : Manager H) (p : Result Answer × Manager H)
      → QueuesOne m p
      → Accounted m (status_of H p.0, p.1)
  accounted m (raised e, m') q = inl (refl, q)
  accounted m (ok a, m') (one, d) = inr (d, one)

  -- If the host keeps its assumptions, a POST with an action is either answered with 400, and then nothing has changed, or with success,
  -- and then exactly one item more waits for the save or the delete worker.
  pub answer_post-Accounted :
      (r : Request) (m : Manager H) → has_action r ≡ true → Accounted m (answer_post H r m)
  unfolding answer_post handle_post
  answer_post-Accounted r m h =
      accounted m (handle_post H r m) (with_body-QueuesOne r.params r.params.zone_file r.body m h)
