-- ===== src/Compaction/Checkpoint.antt =====
-- The checkpoint of a remote compaction of src/application/compaction.ts: how its output is checked,
-- and how it is made and read back. A value that the code returns after a check is the value itself.
use pi_codex_adaptor.Prelude.{
  ℕ, suc, ◌+◌, String, Bool, true, false, not, ◌&&◌, ◌||◌, Option, none, some, List, [], ◌∷◌, all,
  ltb, ◌==◌, str_eq, mem_text, if◌then◌else◌,
}
use pi_codex_adaptor.Value.{
  Value, undefined, null, bool, number, text, array, object, Items, nil, cons, Fields, end, field,
  keys, get,
}
use pi_codex_adaptor.Compaction.Threshold.{is_finite}
use pi_codex_adaptor.Compaction.Items.{response_item_fields}

-- `isStrictJsonValue` on a value that is a tree.
unfoldable mutual
  pub is_strict : Value → Bool
  is_strict undefined = false
  is_strict null = true
  is_strict (bool b) = true
  is_strict (number n) = is_finite n
  is_strict (text s) = true
  is_strict (array vs) = are_strict vs
  is_strict (object fs) = has_strict fs

  pub are_strict : Items → Bool
  are_strict nil = true
  are_strict (cons v vs) = is_strict v && are_strict vs

  pub has_strict : Fields → Bool
  has_strict end = true
  has_strict (field k v fs) = is_strict v && has_strict fs

abbrev pub fields_of_type : String → List (String × List String) → Option (List String)
fields_of_type t [] = none
fields_of_type t ((name, fields) ∷ rows) =
    if str_eq name t then some fields else fields_of_type t rows

abbrev pub is_filled_text : Value → Bool
is_filled_text (text s) = not (str_eq s "")
is_filled_text _ = false

abbrev pub is_compaction_type : String → Bool
is_compaction_type t = str_eq t "compaction" || str_eq t "context_compaction"

abbrev pub fits_fields : Fields → Option (List String) → Bool
fits_fields fs none = false
fits_fields fs (some fields) = all (λ k. mem_text k fields) (keys fs)

abbrev pub supports : Fields → Value → Bool
supports fs (text t) =
    fits_fields fs (fields_of_type t response_item_fields)
    && has_strict fs
    && (not (is_compaction_type t) || is_filled_text (get "encrypted_content" fs))
supports fs _ = false

unfoldable pub is_supported_structured_response_item : Fields → Bool
is_supported_structured_response_item fs = supports fs (get "type" fs)

abbrev pub is_compaction : Fields → Bool
is_compaction fs = elim (get "type" fs) [ text t ↦ str_eq t "compaction" | _ ↦ false ]

-- The items of the output; none where one is not supported.
unfoldable pub supported_items : Items → Option (List Fields)
unfolding is_supported_structured_response_item
supported_items nil = some []
supported_items (cons (object fs) vs) =
    let rest = supported_items vs in
    if is_supported_structured_response_item fs
    then elim rest [ none ↦ none | some items ↦ some (fs ∷ items) ]
    else none
supported_items (cons _ vs) = none

unfoldable pub compaction_items : List Fields → ℕ
compaction_items [] = 0
compaction_items (fs ∷ items) = (if is_compaction fs then 1 else 0) + compaction_items items

abbrev pub one_compaction : Option (List Fields) → Option (List Fields)
one_compaction none = none
one_compaction (some items) = if compaction_items items == 1 then some items else none

abbrev pub max_output_items : ℕ
max_output_items = 8192

unfoldable pub count_items : Items → ℕ
count_items nil = 0
count_items (cons v vs) = suc (count_items vs)

unfoldable pub validate_compaction_output : Items → Option (List Fields)
unfolding supported_items compaction_items count_items
validate_compaction_output vs =
    if count_items vs == 0 || ltb max_output_items (count_items vs)
    then none
    else one_compaction (supported_items vs)

-- The items as an array of JSON.
unfoldable pub items_of : List Fields → Items
items_of [] = nil
items_of (fs ∷ items) = cons (object fs) (items_of items)
