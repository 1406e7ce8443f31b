-- ===== src/ToolProfile/Sets.antt =====
-- Which names the lists of src/integration/pi/codex-tool-profile.ts hold.
use pi_codex_adaptor.Prelude.{
  String, true, not, ◌&&◌, ◌||◌, ◌≡◌, refl, ap, test_eq, List, [], ◌∷◌, keep, mem_text, arith,
  eq_iff, Unique, Unique-cons, Unique-snoc, mem_text-append, mem_text-keep, str_eq,
}
use pi_codex_adaptor.ToolProfile.Names.{
  is_managed, unique_from, ordered_unique, is_additive, push_name, push_managed,
  reconcile_codex_active_tool_names,
}

pub mem_text_eq :
    (s t : String) (xs : List String) → str_eq t s ≡ true → mem_text t xs ≡ mem_text s xs
mem_text_eq s t xs h = ap (λ u. mem_text u xs) ((eq_iff t s).0 h)

mem_text-unique_from :
    (s : String) (seen names : List String)
    → mem_text s (unique_from seen names) ≡ (mem_text s names && not (mem_text s seen))
unfolding unique_from
mem_text-unique_from s seen [] = refl
mem_text-unique_from s seen (x ∷ names) = ground (
  arith,
  mem_text-unique_from s seen names,
  mem_text-unique_from s (x ∷ seen) names,
  mem_text_eq s x seen,
)

unique_from-Unique : (seen names : List String) → Unique (unique_from seen names)
unfolding unique_from
unique_from-Unique seen [] = tt
unique_from-Unique seen (x ∷ names) = ground (
  arith,
  unique_from-Unique seen names,
  unique_from-Unique (x ∷ seen) names,
  mem_text-unique_from x (x ∷ seen) names,
  eq_iff x x,
  Unique-cons x (unique_from (x ∷ seen) names),
)

pub mem_text-ordered_unique :
    (s : String) (names : List String) → mem_text s (ordered_unique names) ≡ mem_text s names
unfolding ordered_unique
mem_text-ordered_unique s names = ground (arith, mem_text-unique_from s [] names)

pub ordered_unique-Unique : (names : List String) → Unique (ordered_unique names)
unfolding ordered_unique
ordered_unique-Unique names = unique_from-Unique [] names

mem_text-push_name :
    (s : String) (available result : List String) (x : String)
    → mem_text s (push_name available result x)
      ≡ (mem_text s result || (str_eq x s && (mem_text s available && is_managed s)))
unfolding push_name
mem_text-push_name s available result x = ground (
  arith,
  mem_text-append s result (x ∷ []),
  mem_text_eq s x available,
  mem_text_eq s x result,
  test_eq is_managed s x,
)

mem_text-push_managed :
    (s : String) (available result names : List String)
    → mem_text s (push_managed available result names)
      ≡ (mem_text s result || (mem_text s names && (mem_text s available && is_managed s)))
unfolding push_managed
mem_text-push_managed s available result [] = ground arith
mem_text-push_managed s available result (x ∷ names) = ground (
  arith,
  mem_text-push_managed s available (push_name available result x) names,
  mem_text-push_name s available result x,
)

push_name-Unique :
    (available result : List String) (x : String)
    → Unique result
    → Unique (push_name available result x)
unfolding push_name
push_name-Unique available result x h = ground (arith, Unique-snoc result x h)

push_managed-Unique :
    (available result names : List String)
    → Unique result
    → Unique (push_managed available result names)
unfolding push_managed
push_managed-Unique available result [] h = h
push_managed-Unique available result (x ∷ names) h =
    push_managed-Unique available (push_name available result x) names
      (push_name-Unique available result x h)

-- The Codex profile holds exactly the additive tools of the current list and the managed tools that
-- are to be active, as far as the host has them.
pub mem_text-reconcile :
    (s : String) (current available active_managed : List String)
    → mem_text s (reconcile_codex_active_tool_names current available active_managed) ≡ (
        (mem_text s current && is_additive available s)
        || (mem_text s active_managed && (mem_text s available && is_managed s)))
unfolding reconcile_codex_active_tool_names
mem_text-reconcile s current available active_managed = ground (
  arith,
  mem_text-push_managed s available (ordered_unique (keep (is_additive available) current))
      (ordered_unique active_managed),
  mem_text-ordered_unique s (keep (is_additive available) current),
  mem_text-ordered_unique s active_managed,
  mem_text-keep (is_additive available) s current,
)

-- The list of the Codex profile names no tool twice.
pub reconcile-Unique :
    (current available active_managed : List String)
    → Unique (reconcile_codex_active_tool_names current available active_managed)
unfolding reconcile_codex_active_tool_names
reconcile-Unique current available active_managed =
    push_managed-Unique available _ (ordered_unique active_managed) (ordered_unique-Unique _)
