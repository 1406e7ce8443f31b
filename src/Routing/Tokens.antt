-- ===== src/Routing/Tokens.antt =====
-- Sets of object identities in insertion order: the keys of a `Map` whose keys are objects.
use pi_codex_adaptor.Prelude.{
  ℕ, Bool, true, false, not, ◌&&◌, ◌||◌, ◌≡◌, refl, List, [], ◌∷◌, ◌==◌, keep, arith,
}

-- The identity of an object, by the order of creation.
abbrev pub Token : Type 0
Token = ℕ

abbrev pub mem : Token → List Token → Bool
mem t [] = false
mem t (u ∷ us) = u == t || mem t us

-- No token stands twice.
abbrev pub Distinct : List Token → Type 0
Distinct [] = Unit
Distinct (t ∷ ts) = (mem t ts ≡ false) × Distinct ts

abbrev pub others : Token → List Token → List Token
others t = keep λ u. not (u == t)

-- `set(token, …)`: a token that is there keeps its place.
abbrev pub add : Token → List Token → List Token
add t [] = t ∷ []
add t (u ∷ us) = elim (u == t) [ true ↦ u ∷ us | false ↦ u ∷ add t us ]

pub mem-others : (t u : Token) (ts : List Token) → mem u (others t ts) ≡ (mem u ts && not (u == t))
mem-others t u [] = refl
mem-others t u (v ∷ ts) = ground (arith, mem-others t u ts)

pub others-Distinct : (t : Token) (ts : List Token) → Distinct ts → Distinct (others t ts)
others-Distinct t [] d = tt
others-Distinct t (u ∷ ts) d = ground (arith, others-Distinct t ts d.1, mem-others t u ts)

pub mem-add : (t u : Token) (ts : List Token) → mem u (add t ts) ≡ (t == u || mem u ts)
mem-add t u [] = refl
mem-add t u (v ∷ ts) = ground (arith, mem-add t u ts)

pub add-Distinct : (t : Token) (ts : List Token) → Distinct ts → Distinct (add t ts)
add-Distinct t [] d = (refl, tt)
add-Distinct t (u ∷ ts) d = ground (arith, add-Distinct t ts d.1, mem-add t u ts)
