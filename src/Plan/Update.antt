-- ===== src/Plan/Update.antt =====
-- src/domain/plan.ts and src/application/update-plan.ts.
use pi_codex_adaptor.Prelude.{
  String, Bool, not, Option, none, some, List, [], ◌∷◌, any, mem_text, str_eq, if◌then◌else◌,
}
use pi_codex_adaptor.Value.{
  Value, undefined, text, array, Items, nil, cons, Fields, keys, get, object,
}

pub data PlanItemStatus : Type 0 where
  pending in_progress completed : PlanItemStatus

pub record PlanItem : Type 0 where
  pub step : String
  pub status : PlanItemStatus

pub record PlanUpdate : Type 0 where
  pub explanation : Option String
  pub plan : List PlanItem

unfoldable pub has_unknown_keys : Fields → List String → Bool
has_unknown_keys fs allowed = any (λ k. not (mem_text k allowed)) (keys fs)

abbrev pub status_of_text : String → Option PlanItemStatus
status_of_text s =
    if str_eq s "pending"
    then some pending
    else if str_eq s "in_progress"
    then some in_progress
    else if str_eq s "completed"
    then some completed
    else none

-- `isPlanItemStatus`, with the status that the value is.
unfoldable pub plan_item_status : Value → Option PlanItemStatus
plan_item_status (text s) = status_of_text s
plan_item_status _ = none

abbrev pub item_of : Value → Option PlanItemStatus → Option PlanItem
item_of (text s) (some status) = some (record { step = s; status = status })
item_of _ _ = none

-- One step of `value.plan.map`; none where it throws.
unfoldable pub parse_item : Value → Option PlanItem
unfolding has_unknown_keys plan_item_status
parse_item (object fs) =
    if has_unknown_keys fs ("step" ∷ "status" ∷ [])
    then none
    else item_of (get "step" fs) (plan_item_status (get "status" fs))
parse_item _ = none

abbrev pub add_item : Option PlanItem → Option (List PlanItem) → Option (List PlanItem)
add_item (some i) (some is) = some (i ∷ is)
add_item _ _ = none

unfoldable pub parse_items : Items → Option (List PlanItem)
unfolding parse_item
parse_items nil = some []
parse_items (cons v vs) = add_item (parse_item v) (parse_items vs)

unfoldable pub parse_plan : Value → Option (List PlanItem)
unfolding parse_items
parse_plan (array vs) = parse_items vs
parse_plan _ = none

abbrev pub with_explanation : Value → Option (List PlanItem) → Option PlanUpdate
with_explanation undefined (some is) = some (record { explanation = none; plan = is })
with_explanation (text s) (some is) = some (record { explanation = some s; plan = is })
with_explanation _ _ = none

-- `parsePlanUpdate`; none where it throws a `PlanArgumentsError`.
unfoldable pub parse_plan_update : Value → Option PlanUpdate
unfolding has_unknown_keys parse_plan
parse_plan_update (object fs) =
    if has_unknown_keys fs ("explanation" ∷ "plan" ∷ [])
    then none
    else with_explanation (get "explanation" fs) (parse_plan (get "plan" fs))
parse_plan_update _ = none

pub data Mode : Type 0 where
  default plan : Mode

pub data Outcome : Type 0 where
  plan_updated update_plan_not_allowed invalid_plan_arguments : Outcome

abbrev pub publish : Option PlanUpdate → List PlanUpdate → List PlanUpdate × Outcome
publish none published = (published, invalid_plan_arguments)
publish (some u) published = (u ∷ published, plan_updated)

-- `execute`, on what the view has published, the last update first.
unfoldable pub execute : Value → Mode → List PlanUpdate → List PlanUpdate × Outcome
unfolding parse_plan_update
execute v Mode.plan published = (published, update_plan_not_allowed)
execute v Mode.default published = publish (parse_plan_update v) published
