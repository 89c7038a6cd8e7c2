-- ===== src/System/Items.antt =====
-- The items that wait on a queue, as operations on it change them.
use directdnsonly.Base.{
  String, ◌≡◌, refl, sym, ◌∙◌, Bool, true, false, not, Option, none, some, List, [], ◌∷◌,
  if◌then◌else◌, ◌==◌, string_eq, option_eq, truthy, All, All-append, keep,
}
use mathlib.Core.Path.{subst}
use mathlib.Core.Option.{some-injective}
use directdnsonly.Base.Exec.{Result, ok, raised, value_error}
use directdnsonly.Queue.{Queues, IsFifo}
use directdnsonly.Zone.{validate_and_normalize_zone}
use directdnsonly.Worker.State.{Item, Host, Manager}
use directdnsonly.Admin.{
  Params, Request, Answer, done, push_item, removal_item, queue_save, save_zone, handle_rawsave,
  handle_delete, handle_action, handle_params, with_body, handle_post,
}

module _ {Q : Queues Item} (F : IsFifo Q) (P : Item → Type 0) where
  abbrev pub Waiting : Q.Queue → Type 0
  Waiting q = All P (Q.items q)

  pub put-Waiting : (i : Item) (q : Q.Queue) → P i → Waiting q → Waiting (Q.put i q)
  put-Waiting i q p w =
      subst (All P) (sym (F.items-put i q)) (All-append P (Q.items q) (i ∷ []) w (p, tt))

  -- An item that is taken waited, and the others still do.
  pub get-Waiting :
      (q q' : Q.Queue) (i : Item) → Q.get_nowait q ≡ some (i, q') → Waiting q → P i × Waiting q'
  get-Waiting q q' i e w = taken (Q.items q) refl
    where
      taken : (xs : List Item) → Q.items q ≡ xs → P i × Waiting q'
      taken [] none_left = absurd (cc (e, F.get_empty q none_left))
      taken (x ∷ xs) waiting =
          let (r, got, left) = F.get_oldest x xs q waiting in
          let all = subst (All P) waiting w in
          subst (λ (p : Item × Q.Queue). P p.0 × Waiting p.1) (some-injective _ _ (sym got ∙ e))
            (all.0, subst (All P) (sym left) all.1)

pub All-keep : (P : Item → Type 0) (f : Item → Bool) (xs : List Item) → All P xs → All P (keep f xs)
All-keep P f [] w = tt
All-keep P f (x ∷ xs) w = kept (f x) (All-keep P f xs w.1)
  where
    kept : (b : Bool) → All P (keep f xs) → All P (if b then x ∷ keep f xs else keep f xs)
    kept true rest = (w.0, rest)
    kept false rest = rest

-- What a request does to a manager: nothing, or it puts one item that is no retry on one queue.
module _ (H : Host) (P : Result Answer × Manager H → Type 0) (m : Manager H)
    (nothing : (a : Result Answer) → P (a, m))
    (pushed : (d z : String) (params : Params)
      → P (ok done, record m { save_queue = H.queues.put (push_item d z params) m.save_queue }))
    (removed : (d : String) (params : Params)
      → P (
        ok done,
        record m { delete_queue = H.queues.put (removal_item d params) m.delete_queue },
      )) where
  either : (b : Bool) (p q : Result Answer × Manager H) → P p → P q → P (if b then p else q)
  either true p q hp hq = hp
  either false p q hp hq = hq

  queue_save_cases :
      (d : String) (params : Params) (z : Result String) → P (queue_save H d params z m)
  queue_save_cases d params (raised e) = nothing (raised e)
  queue_save_cases d params (ok z) = pushed d z params

  save_zone_cases :
      (d : String) (params : Params) (z : Option String) → P (save_zone H d params z m)
  save_zone_cases d params none = nothing (raised value_error)
  save_zone_cases d params (some z) =
      either (truthy z) _ _
        (queue_save_cases d params (validate_and_normalize_zone H.from_text z d))
        (nothing (raised value_error))

  action_cases :
      (action : String) (d : Option String) (params : Params)
      → P (handle_action H action d params m)
  unfolding handle_rawsave handle_delete
  action_cases action none params = nothing (raised value_error)
  action_cases action (some d) params = either (not (truthy d)) _ _ (nothing (raised value_error)) (
      either (action == "rawsave") _ _ (save_zone_cases d params params.zone_file)
        (either (action == "delete") _ _ (removed d params) (nothing (raised value_error))))

  params_cases : (params : Params) (action : Option String) → P (handle_params H params action m)
  params_cases params none = nothing (ok done)
  params_cases params (some action) =
      either (truthy action) _ _ (action_cases action params.domain params) (nothing (ok done))

  body_cases :
      (params : Params) (z : Option String) (body : Result String) → P (with_body H params z body m)
  body_cases params (some z) body = params_cases params params.action
  body_cases params none (ok text) =
      params_cases (record params { zone_file = some text }) params.action
  body_cases params none (raised e) = nothing (raised e)

  pub handle_post_cases : (r : Request) → P (handle_post H r m)
  unfolding handle_post
  handle_post_cases r = body_cases r.params r.params.zone_file r.body
