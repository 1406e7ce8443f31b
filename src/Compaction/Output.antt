-- ===== src/Compaction/Output.antt =====
-- The output of a remote compaction of src/application/compaction.ts: which output is accepted.
use pi_codex_adaptor.Prelude.{
  ◌≤◌, String, Bool, true, false, not, ◌&&◌, ◌||◌, ◌≡◌, ◌≢◌, ◌↔◌, ◌⊎◌, refl, sym, ap, subst, ◌∙◌,
  Option, none, some, List, [], ◌∷◌, ◌++◌, arith, inl, inr, Option-cases, Bool-cases, All, all,
  length, mem_text, str_eq, eq_iff,
}
use pi_codex_adaptor.Value.{
  Value, keys, get, undefined, null, bool, number, text, array, object, Items, nil, cons, Fields,
}
use pi_codex_adaptor.Compaction.Items.{response_item_fields}
use pi_codex_adaptor.Compaction.Strict.{HasJson, has_strict_iff}
use pi_codex_adaptor.Compaction.Checkpoint.{
  fields_of_type, fits_fields, has_strict, is_compaction_type, is_filled_text, is_compaction,
  supports, is_supported_structured_response_item, supported_items, compaction_items, count_items,
  max_output_items, validate_compaction_output, items_of,
}

-- An item of the type t: the table has fields for the type, the keys are among them, the values are
-- strict JSON, and an item of the two types of compaction has a content that is not empty.
abbrev pub IsItemOf : Option (List String) → String → Fields → Type 0
IsItemOf o t fs =
    (fields : List String) × ((o ≡ some fields)
      × (All (λ k. mem_text k fields ≡ true) (keys fs)
          × (HasJson fs
              × (((t ≢ "compaction") × (t ≢ "context_compaction"))
                  ⊎ ((s : String) × ((get "encrypted_content" fs ≡ text s) × (s ≢ "")))))))

abbrev pub IsItem : Fields → Type 0
IsItem fs =
    (t : String) × ((get "type" fs ≡ text t)
      × IsItemOf (fields_of_type t response_item_fields) t fs)

-- One item is of type compaction, and those before and after it are not.
abbrev pub HasOneCompaction : List Fields → Type 0
HasOneCompaction found =
    (before : List Fields) × (c : Fields) × (after : List Fields) × ((found ≡ before ++ c ∷ after)
      × ((get "type" c ≡ text "compaction")
          × All (λ fs. get "type" fs ≢ text "compaction") (before ++ after)))

abbrev pub IsOutput : List Fields → Type 0
IsOutput found =
    (1 ≤ length found) × (length found ≤ 8192) × All IsItem found × HasOneCompaction found

all-All : (p : String → Bool) (ks : List String) → (all p ks ≡ true) ↔ All (λ k. p k ≡ true) ks
all-All p [] = ground arith
all-All p (k ∷ ks) = ground (arith, all-All p ks)

filled_iff : (v : Value) → (is_filled_text v ≡ true) ↔ ((s : String) × ((v ≡ text s) × (s ≢ "")))
filled_iff undefined = (λ h. absurd (cc), λ (s, (e, n)). absurd (cc))
filled_iff null = (λ h. absurd (cc), λ (s, (e, n)). absurd (cc))
filled_iff (bool b) = (λ h. absurd (cc), λ (s, (e, n)). absurd (cc))
filled_iff (number x) = (λ h. absurd (cc), λ (s, (e, n)). absurd (cc))
filled_iff (array vs) = (λ h. absurd (cc), λ (s, (e, n)). absurd (cc))
filled_iff (object fs) = (λ h. absurd (cc), λ (s, (e, n)). absurd (cc))
filled_iff (text t) = (
  λ h. (t, (refl, λ e. ground (arith, h, e, eq_iff t ""))),
  λ (s, (e, n)). ground (arith, e, n, eq_iff t ""),
)

content_iff :
    (t : String) (v : Value)
    → ((not (is_compaction_type t) || is_filled_text v) ≡ true) ↔ (
        ((t ≢ "compaction") × (t ≢ "context_compaction"))
        ⊎ ((s : String) × ((v ≡ text s) × (s ≢ ""))))
content_iff t v = (
  λ h. elim (Bool-cases (is_filled_text v)) [
    | inl e ↦ inr ((filled_iff v).0 e)
    | inr e ↦ inl (
      λ same. ground (arith, h, e, same, eq_iff t "compaction"),
      λ same. ground (arith, h, e, same, eq_iff t "context_compaction"),
    )
  ],
  λ h. elim h [
    | inl k ↦ ground (arith, k, eq_iff t "compaction", eq_iff t "context_compaction")
    | inr k ↦ ground (arith, (filled_iff v).1 k)
  ],
)

item_iff :
    (o : Option (List String)) (t : String) (fs : Fields)
    → ((fits_fields fs o
          && has_strict fs
          && (not (is_compaction_type t) || is_filled_text (get "encrypted_content" fs)))
        ≡ true)
      ↔ IsItemOf o t fs
item_iff none t fs = (λ h. absurd (ground (arith, h)), λ (fields, (e, k)). absurd (cc))
item_iff (some fields) t fs = (
  λ h. (
    fields,
    (
      refl,
      (
        (all-All (λ k. mem_text k fields) (keys fs)).0 (ground (arith, h)),
        (
          (has_strict_iff fs).0 (ground (arith, h)),
          (content_iff t (get "encrypted_content" fs)).0 (ground (arith, h)),
        ),
      ),
    ),
  ),
  λ (others, (e, (ks, (strict, k)))).
      let same : others ≡ fields = cc in
      let fits : all (λ k. mem_text k fields) (keys fs) ≡ true =
        (all-All (λ k. mem_text k fields) (keys fs)).1
          (subst (λ l. All (λ k. mem_text k l ≡ true) (keys fs)) same ks) in
      ground (
        arith,
        fits,
        (has_strict_iff fs).1 strict,
        (content_iff t (get "encrypted_content" fs)).1 k,
      ),
)

text_of : Value → String
text_of (text t) = t
text_of _ = ""

supports_iff :
    (v : Value) (fs : Fields)
    → (supports fs v ≡ true)
      ↔ ((t : String) × ((v ≡ text t) × IsItemOf (fields_of_type t response_item_fields) t fs))
unfolding text_of
supports_iff undefined fs = (λ h. absurd (cc), λ (s, (e, n)). absurd (cc))
supports_iff null fs = (λ h. absurd (cc), λ (s, (e, n)). absurd (cc))
supports_iff (bool b) fs = (λ h. absurd (cc), λ (s, (e, n)). absurd (cc))
supports_iff (number x) fs = (λ h. absurd (cc), λ (s, (e, n)). absurd (cc))
supports_iff (array vs) fs = (λ h. absurd (cc), λ (s, (e, n)). absurd (cc))
supports_iff (object gs) fs = (λ h. absurd (cc), λ (s, (e, n)). absurd (cc))
supports_iff (text t) fs = (
  λ h. (t, (refl, (item_iff (fields_of_type t response_item_fields) t fs).0 h)),
  λ (u, (e, k)).
      (item_iff (fields_of_type t response_item_fields) t fs).1
        (subst (λ x. IsItemOf (fields_of_type x response_item_fields) x fs) (ap text_of (sym e)) k),
)

supported_iff : (fs : Fields) → (is_supported_structured_response_item fs ≡ true) ↔ IsItem fs
unfolding is_supported_structured_response_item
supported_iff fs = supports_iff (get "type" fs) fs

type_iff :
    (v : Value)
    → ((elim v [ text t ↦ str_eq t "compaction" | _ ↦ false ]) ≡ true) ↔ (v ≡ text "compaction")
type_iff undefined = (λ h. absurd (cc), λ e. absurd (cc))
type_iff null = (λ h. absurd (cc), λ e. absurd (cc))
type_iff (bool b) = (λ h. absurd (cc), λ e. absurd (cc))
type_iff (number x) = (λ h. absurd (cc), λ e. absurd (cc))
type_iff (array vs) = (λ h. absurd (cc), λ e. absurd (cc))
type_iff (object gs) = (λ h. absurd (cc), λ e. absurd (cc))
type_iff (text t) =
    (λ h. ap text ((eq_iff t "compaction").0 h), λ e. ground (arith, e, eq_iff t "compaction"))

is_compaction_iff : (fs : Fields) → (is_compaction fs ≡ true) ↔ (get "type" fs ≡ text "compaction")
is_compaction_iff fs = type_iff (get "type" fs)

count-zero :
    (found : List Fields)
    → (compaction_items found ≡ 0) ↔ All (λ fs. get "type" fs ≢ text "compaction") found
unfolding compaction_items
count-zero [] = ground arith
count-zero (fs ∷ found) = ground (arith, is_compaction_iff fs, count-zero found)

count-one : (found : List Fields) → compaction_items found ≡ 1 → HasOneCompaction found
unfolding compaction_items
count-one [] h = absurd (cc)
count-one (fs ∷ found) h = elim (Bool-cases (is_compaction fs)) [
  | inl e ↦ (
    [],
    fs,
    found,
    (refl, ((is_compaction_iff fs).0 e, (count-zero found).0 (ground (arith, h, e)))),
  )
  | inr e ↦
      let (before, c, after, (split, (one, rest))) = count-one found (ground (arith, h, e)) in
      (
        fs ∷ before,
        c,
        after,
        (ap (λ l. fs ∷ l) split, (one, (λ k. ground (arith, e, k, is_compaction_iff fs), rest))),
      )
]

count-around :
    (before : List Fields) (c : Fields) (after : List Fields)
    → get "type" c ≡ text "compaction"
    → All (λ fs. get "type" fs ≢ text "compaction") (before ++ after)
    → compaction_items (before ++ c ∷ after) ≡ 1
unfolding compaction_items
count-around [] c after one rest = ground (arith, one, rest, is_compaction_iff c, count-zero after)
count-around (fs ∷ before) c after one rest =
    ground (arith, rest.0, is_compaction_iff fs, count-around before c after one rest.1)

compaction_items_iff : (found : List Fields) → (compaction_items found ≡ 1) ↔ HasOneCompaction found
compaction_items_iff found = (
  count-one found,
  λ (before, c, after, (split, (one, rest))).
      ap compaction_items split ∙ count-around before c after one rest,
)

items_iff :
    (found : List Fields)
    → All (λ fs. is_supported_structured_response_item fs ≡ true) found ↔ All IsItem found
items_iff [] = (λ h. h, λ h. h)
items_iff (fs ∷ found) = (
  λ (h, hs). ((supported_iff fs).0 h, (items_iff found).0 hs),
  λ (h, hs). ((supported_iff fs).1 h, (items_iff found).1 hs),
)

count_items-items_of : (found : List Fields) → count_items (items_of found) ≡ length found
unfolding count_items items_of
count_items-items_of [] = refl
count_items-items_of (fs ∷ found) = ground (arith, count_items-items_of found)

supported_items-items_of :
    (found : List Fields)
    → All (λ fs. is_supported_structured_response_item fs ≡ true) found
    → supported_items (items_of found) ≡ some found
unfolding supported_items items_of
supported_items-items_of [] h = refl
supported_items-items_of (fs ∷ found) h = rw (h.0, supported_items-items_of found h.1) refl

supported_items-eq-some :
    (vs : Items) (found : List Fields)
    → supported_items vs ≡ some found
    → (vs ≡ items_of found) × All (λ fs. is_supported_structured_response_item fs ≡ true) found
unfolding supported_items items_of
supported_items-eq-some nil [] h = (refl, tt)
supported_items-eq-some nil (fs ∷ found) h = absurd (cc)
supported_items-eq-some (cons (object fs) vs) found h = elim (Option-cases (supported_items vs)) [
  | inl e ↦ absurd (ground (arith, e))
  | inr (rest, e) ↦
      let k = supported_items-eq-some vs rest e in
      let both : (fs ∷ rest ≡ found) × (is_supported_structured_response_item fs ≡ true) =
        ground (arith, e) in
      subst
        (λ found.
          (cons (object fs) vs ≡ items_of found)
          × All (λ fs. is_supported_structured_response_item fs ≡ true) found)
        both.0 (ap (cons (object fs)) k.0, (both.1, k.1))
]
supported_items-eq-some (cons undefined vs) found h = absurd (cc)
supported_items-eq-some (cons null vs) found h = absurd (cc)
supported_items-eq-some (cons (bool b) vs) found h = absurd (cc)
supported_items-eq-some (cons (number n) vs) found h = absurd (cc)
supported_items-eq-some (cons (text s) vs) found h = absurd (cc)
supported_items-eq-some (cons (array ws) vs) found h = absurd (cc)

validate_compaction_output-parts :
    (vs : Items) (found : List Fields)
    → (validate_compaction_output vs ≡ some found) ↔ (
        (supported_items vs ≡ some found)
        × (compaction_items found ≡ 1)
        × (1 ≤ count_items vs)
        × (count_items vs ≤ max_output_items))
unfolding validate_compaction_output
validate_compaction_output-parts vs found = ground arith

-- An output is accepted, as it is, exactly when it has from 1 to 8192 items, each of a type of the
-- table, with keys among its fields, with values that are strict JSON, and with a content that is
-- not empty if it is of one of the two types of compaction, and exactly one item is of type
-- compaction.
pub validate_compaction_output_iff :
    (vs : Items) (found : List Fields)
    → (validate_compaction_output vs ≡ some found) ↔ ((vs ≡ items_of found) × IsOutput found)
validate_compaction_output_iff vs found = (
  λ h.
      let (s, one, least, most) = (validate_compaction_output-parts vs found).0 h in
      let (e, each) = supported_items-eq-some vs found s in
      let n : count_items vs ≡ length found = ap count_items e ∙ count_items-items_of found in
      (
        e,
        (
          omega (arith, n, least),
          omega (arith, n, most),
          (items_iff found).0 each,
          (compaction_items_iff found).0 one,
        ),
      ),
  λ (e, (least, most, each, one)).
      let n : count_items vs ≡ length found = ap count_items e ∙ count_items-items_of found in
      (validate_compaction_output-parts vs found).1 (
        ap supported_items e ∙ supported_items-items_of found ((items_iff found).1 each),
        (compaction_items_iff found).1 one,
        omega (arith, n, least),
        omega (arith, n, most),
      ),
)
