-- ===== src/Storage/Listeners.antt =====
-- The listeners of `ConfigurationService` of src/application/configuration.ts. A listener is a number,
-- and what the listeners have been told is kept in the order of the calls.
use pi_codex_adaptor.Prelude.{
  ℕ, Bool, true, false, not, ◌≡◌, refl, sym, ap, ◌∙◌, List, [], ◌∷◌, ◌++◌, map, keep, any, ◌==◌,
  if◌then◌else◌,
}
use mathlib.Core.List.{append_assoc, append-nil}
use pi_codex_adaptor.Config.Schema.{CodexConfig}
use pi_codex_adaptor.Storage.Disk.{
  Fault, works, fails, dies, created, World, Ran, finished, threw, died, next_fault, later_faults,
}

pub record Service : Type 0 where
  pub listeners : List ℕ
  pub told : List (ℕ × CodexConfig)

-- `onChange`: a `Set` keeps a listener once.
unfoldable pub on_change : ℕ → Service → Service
on_change l s =
    if any (λ k. k == l) s.listeners then s else record s { listeners = s.listeners ++ l ∷ [] }

-- The function that `onChange` returns.
unfoldable pub stop : ℕ → Service → Service
stop l s = record s { listeners = keep (λ k. not (k == l)) s.listeners }

-- The process may die before each listener is called, and after the last.
abbrev pub unless_dies :
    Fault
    → World
    → List (ℕ × CodexConfig)
    → Ran Bool × List (ℕ × CodexConfig)
    → Ran Bool × List (ℕ × CodexConfig)
unless_dies dies w told r = (died w, told)
unless_dies _ w told r = r

-- `#notify`; what a listener throws is dropped.
unfoldable pub notify :
    CodexConfig → List ℕ → List (ℕ × CodexConfig) → World → Ran Bool × List (ℕ × CodexConfig)
notify c [] told w =
    let later : World = record w { faults = later_faults w.faults } in
    unless_dies (next_fault w.faults) later told (finished true later, told)
notify c (l ∷ ls) told w =
    let later : World = record w { faults = later_faults w.faults } in
    let rest = notify c ls (told ++ (l, c) ∷ []) later in
    unless_dies (next_fault w.faults) later told rest

-- The files are as they were, and all listeners have been told, or the first of them where the
-- process has died.
abbrev pub Tells :
    CodexConfig
    → List ℕ
    → List (ℕ × CodexConfig)
    → World
    → Ran Bool × List (ℕ × CodexConfig)
    → Type 0
Tells c ls told w (finished a v, t) = (v.files ≡ w.files) × (t ≡ told ++ map (λ l. (l, c)) ls)
Tells c ls told w (threw e v, t) = true ≡ false
Tells c ls told w (died v, t) =
    (v.files ≡ w.files)
    × ((first : List ℕ) × (rest : List ℕ) × ((ls ≡ first ++ rest)
          × (t ≡ told ++ map (λ l. (l, c)) first)))

unless_dies-Tells :
    (f : Fault) (c : CodexConfig) (ls : List ℕ) (told : List (ℕ × CodexConfig)) (w later : World)
    (r : Ran Bool × List (ℕ × CodexConfig))
    → later.files ≡ w.files
    → Tells c ls told w r
    → Tells c ls told w (unless_dies f later told r)
unless_dies-Tells works c ls told w later r e h = h
unless_dies-Tells fails c ls told w later r e h = h
unless_dies-Tells (created k) c ls told w later r e h = h
unless_dies-Tells dies c ls told w later r e h = (e, ([], ls, (refl, sym (append-nil told))))

cons-Tells :
    (c : CodexConfig) (l : ℕ) (ls : List ℕ) (told : List (ℕ × CodexConfig)) (w : World)
    (r : Ran Bool × List (ℕ × CodexConfig))
    → Tells c ls (told ++ (l, c) ∷ []) w r
    → Tells c (l ∷ ls) told w r
cons-Tells c l ls told w (finished a v, t) (f, e) =
    (f, e ∙ append_assoc told ((l, c) ∷ []) (map (λ l. (l, c)) ls))
cons-Tells c l ls told w (threw x v, t) h = h
cons-Tells c l ls told w (died v, t) (f, (first, rest, (split, e))) = (
  f,
  (
    l ∷ first,
    rest,
    (ap (λ k. l ∷ k) split, e ∙ append_assoc told ((l, c) ∷ []) (map (λ l. (l, c)) first)),
  ),
)

pub notify-Tells :
    (c : CodexConfig) (ls : List ℕ) (told : List (ℕ × CodexConfig)) (w : World)
    → Tells c ls told w (notify c ls told w)
unfolding notify
notify-Tells c [] told w =
    unless_dies-Tells (next_fault w.faults) c [] told w _ _ refl (refl, sym (append-nil told))
notify-Tells c (l ∷ ls) told w =
    unless_dies-Tells (next_fault w.faults) c (l ∷ ls) told w _ _ refl (
      cons-Tells c l ls told w _
        (notify-Tells c ls (told ++ (l, c) ∷ []) (record w { faults = later_faults w.faults })))
