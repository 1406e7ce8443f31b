-- ===== src/Plan/Accepted.antt =====
-- src/domain/plan.ts: which arguments `update_plan` accepts, against a description of them.
use pi_codex_adaptor.Prelude.{
  String, true, false, not, ◌≡◌, ◌↔◌, refl, subst, Option, none, some, List, [], ◌∷◌, any, mem_text,
  eq_iff, arith, inl, inr, Option-cases, All,
}
use pi_codex_adaptor.Value.{
  Value, undefined, null, bool, number, text, array, Items, nil, cons, Fields, keys, get, object,
}
use pi_codex_adaptor.Plan.Update.{
  PlanItemStatus, pending, in_progress, completed, PlanItem, PlanUpdate, has_unknown_keys,
  status_of_text, plan_item_status, item_of, parse_item, parse_items, parse_plan, with_explanation,
  parse_plan_update, Mode, plan_updated, execute,
}

-- The names of the states in the arguments.
abbrev pub status_text : PlanItemStatus → String
status_text pending = "pending"
status_text in_progress = "in_progress"
status_text completed = "completed"

-- The object has no other property than these.
abbrev pub HasOnly : List String → Fields → Type 0
HasOnly allowed fs = All (λ k. mem_text k allowed ≡ true) (keys fs)

-- The properties of an item.
abbrev pub IsItem : PlanItem → Fields → Type 0
IsItem i fs =
    HasOnly ("step" ∷ "status" ∷ []) fs
    × (get "step" fs ≡ text i.step)
    × (get "status" fs ≡ text (status_text i.status))

-- The value describes an item: an object of a step and a state, in any order.
abbrev pub DescribesItem : Value → PlanItem → Type 0
DescribesItem v i = (fs : Fields) × ((v ≡ object fs) × IsItem i fs)

abbrev pub DescribesItems : Items → List PlanItem → Type 0
DescribesItems nil [] = Unit
DescribesItems (cons v vs) (i ∷ is) = DescribesItem v i × DescribesItems vs is
DescribesItems _ _ = ⊥

abbrev pub explanation_value : Option String → Value
explanation_value none = undefined
explanation_value (some s) = text s

-- The properties of an update: a plan and, if there is one, an explanation.
abbrev pub IsUpdate : PlanUpdate → Fields → Type 0
IsUpdate u fs =
    HasOnly ("explanation" ∷ "plan" ∷ []) fs
    × (get "explanation" fs ≡ explanation_value u.explanation)
    × ((vs : Items) × ((get "plan" fs ≡ array vs) × DescribesItems vs u.plan))

abbrev pub DescribesUpdate : Value → PlanUpdate → Type 0
DescribesUpdate v u = (fs : Fields) × ((v ≡ object fs) × IsUpdate u fs)

any_iff :
    (allowed ks : List String)
    → (any (λ k. not (mem_text k allowed)) ks ≡ false) ↔ All (λ k. mem_text k allowed ≡ true) ks
any_iff allowed [] = ground arith
any_iff allowed (k ∷ ks) = ground (arith, any_iff allowed ks)

has_unknown_keys_iff :
    (fs : Fields) (allowed : List String)
    → (has_unknown_keys fs allowed ≡ false) ↔ HasOnly allowed fs
unfolding has_unknown_keys
has_unknown_keys_iff fs allowed = any_iff allowed (keys fs)

status_of_text_iff :
    (s : String) (st : PlanItemStatus) → (status_of_text s ≡ some st) ↔ (s ≡ status_text st)
status_of_text_iff s pending = ground (
  arith,
  eq_iff s "pending",
  eq_iff s "in_progress",
  eq_iff s "completed",
  eq_iff "pending" "in_progress",
  eq_iff "pending" "completed",
  eq_iff "in_progress" "completed",
)
status_of_text_iff s in_progress = ground (
  arith,
  eq_iff s "pending",
  eq_iff s "in_progress",
  eq_iff s "completed",
  eq_iff "pending" "in_progress",
  eq_iff "pending" "completed",
  eq_iff "in_progress" "completed",
)
status_of_text_iff s completed = ground (
  arith,
  eq_iff s "pending",
  eq_iff s "in_progress",
  eq_iff s "completed",
  eq_iff "pending" "in_progress",
  eq_iff "pending" "completed",
  eq_iff "in_progress" "completed",
)

plan_item_status_iff :
    (v : Value) (st : PlanItemStatus) → (plan_item_status v ≡ some st) ↔ (v ≡ text (status_text st))
unfolding plan_item_status
plan_item_status_iff (text s) st = ground (arith, status_of_text_iff s st)
plan_item_status_iff undefined st = ground arith
plan_item_status_iff null st = ground arith
plan_item_status_iff (bool b) st = ground arith
plan_item_status_iff (number n) st = ground arith
plan_item_status_iff (array vs) st = ground arith
plan_item_status_iff (object fs) st = ground arith

item_of_iff :
    (v : Value) (o : Option PlanItemStatus) (i : PlanItem)
    → (item_of v o ≡ some i) ↔ ((v ≡ text i.step) × (o ≡ some i.status))
item_of_iff v o i = ground arith

fields_of : (fs gs : Fields) → object fs ≡ object gs → gs ≡ fs
fields_of fs gs e = cc

parse_object-IsItem : (fs : Fields) (i : PlanItem) → (parse_item (object fs) ≡ some i) ↔ IsItem i fs
unfolding parse_item
parse_object-IsItem fs i = ground (
  arith,
  has_unknown_keys_iff fs ("step" ∷ "status" ∷ []),
  item_of_iff (get "step" fs) (plan_item_status (get "status" fs)) i,
  plan_item_status_iff (get "status" fs) i.status,
)

parse_item_iff : (v : Value) (i : PlanItem) → (parse_item v ≡ some i) ↔ DescribesItem v i
parse_item_iff (object fs) i = (
  λ h. (fs, (refl, (parse_object-IsItem fs i).0 h)),
  λ (gs, d). (parse_object-IsItem fs i).1 (subst (IsItem i) (fields_of fs gs d.0) d.1),
)
parse_item_iff undefined i =
    (λ h. absurd (unfold parse_item in cc), λ (gs, d). let e = d.0 in absurd (cc))
parse_item_iff null i =
    (λ h. absurd (unfold parse_item in cc), λ (gs, d). let e = d.0 in absurd (cc))
parse_item_iff (bool b) i =
    (λ h. absurd (unfold parse_item in cc), λ (gs, d). let e = d.0 in absurd (cc))
parse_item_iff (number n) i =
    (λ h. absurd (unfold parse_item in cc), λ (gs, d). let e = d.0 in absurd (cc))
parse_item_iff (text s) i =
    (λ h. absurd (unfold parse_item in cc), λ (gs, d). let e = d.0 in absurd (cc))
parse_item_iff (array vs) i =
    (λ h. absurd (unfold parse_item in cc), λ (gs, d). let e = d.0 in absurd (cc))

parse_items_iff :
    (vs : Items) (is : List PlanItem) → (parse_items vs ≡ some is) ↔ DescribesItems vs is
unfolding parse_items
parse_items_iff nil [] = ground arith
parse_items_iff nil (i ∷ is) = ground arith
parse_items_iff (cons v vs) [] = ground arith
parse_items_iff (cons v vs) (i ∷ is) = ground (arith, parse_item_iff v i, parse_items_iff vs is)

parse_plan_to :
    (v : Value) (is : List PlanItem)
    → parse_plan v ≡ some is
    → (vs : Items) × ((v ≡ array vs) × DescribesItems vs is)
unfolding parse_plan
parse_plan_to (array vs) is h = (vs, (refl, (parse_items_iff vs is).0 h))
parse_plan_to undefined is h = absurd (cc)
parse_plan_to null is h = absurd (cc)
parse_plan_to (bool b) is h = absurd (cc)
parse_plan_to (number n) is h = absurd (cc)
parse_plan_to (text s) is h = absurd (cc)
parse_plan_to (object fs) is h = absurd (cc)

parse_plan_from :
    (v : Value) (is : List PlanItem) (vs : Items)
    → v ≡ array vs
    → DescribesItems vs is
    → parse_plan v ≡ some is
parse_plan_from v is vs e d = rw e (unfold parse_plan in (parse_items_iff vs is).1 d)

with_explanation_iff :
    (v : Value) (o : Option (List PlanItem)) (u : PlanUpdate)
    → (with_explanation v o ≡ some u) ↔ ((v ≡ explanation_value u.explanation) × (o ≡ some u.plan))
with_explanation_iff v o u = ground arith

parse_parts :
    (fs : Fields) (u : PlanUpdate)
    → (parse_plan_update (object fs) ≡ some u) ↔ (
        HasOnly ("explanation" ∷ "plan" ∷ []) fs
        × (get "explanation" fs ≡ explanation_value u.explanation)
        × (parse_plan (get "plan" fs) ≡ some u.plan))
unfolding parse_plan_update
parse_parts fs u = ground (
  arith,
  has_unknown_keys_iff fs ("explanation" ∷ "plan" ∷ []),
  with_explanation_iff (get "explanation" fs) (parse_plan (get "plan" fs)) u,
)

parse_object-IsUpdate :
    (fs : Fields) (u : PlanUpdate) → (parse_plan_update (object fs) ≡ some u) ↔ IsUpdate u fs
parse_object-IsUpdate fs u = (
  λ h. let p = (parse_parts fs u).0 h in (p.0, p.1, parse_plan_to (get "plan" fs) u.plan p.2),
  λ (o, e, (vs, (a, d))).
      (parse_parts fs u).1 (o, e, parse_plan_from (get "plan" fs) u.plan vs a d),
)

-- The arguments that update_plan accepts, and what it makes of them, are exactly the objects with a
-- plan of well-formed items and a text as explanation or none, without any other property.
pub parse_plan_update_iff :
    (v : Value) (u : PlanUpdate) → (parse_plan_update v ≡ some u) ↔ DescribesUpdate v u
parse_plan_update_iff (object fs) u = (
  λ h. (fs, (refl, (parse_object-IsUpdate fs u).0 h)),
  λ (gs, d). (parse_object-IsUpdate fs u).1 (subst (IsUpdate u) (fields_of fs gs d.0) d.1),
)
parse_plan_update_iff undefined u =
    (λ h. absurd (unfold parse_plan_update in cc), λ (gs, d). let e = d.0 in absurd (cc))
parse_plan_update_iff null u =
    (λ h. absurd (unfold parse_plan_update in cc), λ (gs, d). let e = d.0 in absurd (cc))
parse_plan_update_iff (bool b) u =
    (λ h. absurd (unfold parse_plan_update in cc), λ (gs, d). let e = d.0 in absurd (cc))
parse_plan_update_iff (number n) u =
    (λ h. absurd (unfold parse_plan_update in cc), λ (gs, d). let e = d.0 in absurd (cc))
parse_plan_update_iff (text s) u =
    (λ h. absurd (unfold parse_plan_update in cc), λ (gs, d). let e = d.0 in absurd (cc))
parse_plan_update_iff (array vs) u =
    (λ h. absurd (unfold parse_plan_update in cc), λ (gs, d). let e = d.0 in absurd (cc))

-- update_plan publishes an update, and says so, exactly when it runs in the default mode on
-- arguments that describe it.
pub execute_iff :
    (v : Value) (mode : Mode) (u : PlanUpdate) (published : List PlanUpdate)
    → (execute v mode published ≡ (u ∷ published, plan_updated))
      ↔ ((mode ≡ Mode.default) × DescribesUpdate v u)
unfolding execute
execute_iff v Mode.plan u published = (λ h. cc, λ (m, d). cc)
execute_iff v Mode.default u published = elim (Option-cases (parse_plan_update v)) [
  | inl e ↦ (
    λ h. absurd (ground (arith, e)),
    λ (m, d). absurd (ground (arith, e, (parse_plan_update_iff v u).1 d)),
  )
  | inr (w, e) ↦ (
    λ h. (refl, (parse_plan_update_iff v u).0 (ground (arith, e))),
    λ (m, d). rw ((parse_plan_update_iff v u).1 d) refl,
  )
]
