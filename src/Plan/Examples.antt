-- ===== src/Plan/Examples.antt =====
-- The theorems on src/domain/plan.ts and src/application/update-plan.ts at concrete arguments.
use pi_codex_adaptor.Prelude.{◌≡◌, ◌↔◌, none, some, [], ◌∷◌}
use pi_codex_adaptor.Value.{Value, text, array, cons, nil, object, field, end}
use pi_codex_adaptor.Plan.Update.{PlanUpdate, in_progress, parse_plan_update}
use pi_codex_adaptor.Plan.Accepted.{DescribesUpdate, parse_plan_update_iff}

abbrev arguments : Value
arguments = object (
    field "plan"
      (array
        (cons (object (field "status" (text "in_progress") (field "step" (text "Read") end))) nil))
      end)

abbrev reading : PlanUpdate
reading = record { explanation = none; plan = record { step = "Read"; status = in_progress } ∷ [] }

parse_plan_update_iff_example :
    (parse_plan_update arguments ≡ some reading) ↔ DescribesUpdate arguments reading
parse_plan_update_iff_example = parse_plan_update_iff arguments reading
