-- ===== src/Prelude/Names.antt =====
-- Lists of texts as sets: membership, lists without repetition, `keep`.
use mathlib.Core.Path.{◌≡◌, refl, ap, subst}
use mathlib.Core.Logic.{◌≢◌, ◌↔◌, inl, inr}
use mathlib.Core.Bool.{Bool, true, false, ◌&&◌, ◌||◌}
use mathlib.Core.List.{List, [], ◌∷◌, ◌++◌}
use Prim.Native.String.{String}
use native.Mathlib.Omega.{arith}
use text.Mathlib.Text.{◌==◌ as str_eq}
use text.Mathlib.TextEquality.{eq_iff}
use pi_codex_adaptor.Prelude.Tests.{Bool-cases}
use pi_codex_adaptor.Prelude.Lists.{All, keep}
use pi_codex_adaptor.Prelude.Text.{mem_text}

-- No text stands twice.
abbrev pub Unique : List String → Type 0
Unique [] = Unit
Unique (s ∷ ss) = All (λ t. t ≢ s) ss × Unique ss

pub mem_text_iff : (s : String) (ss : List String) → (mem_text s ss ≡ false) ↔ All (λ t. t ≢ s) ss
mem_text_iff s [] = ground arith
mem_text_iff s (t ∷ ss) = ground (arith, mem_text_iff s ss, eq_iff t s)

pub Unique-cons :
    (s : String) (ss : List String) → Unique (s ∷ ss) ↔ ((mem_text s ss ≡ false) × Unique ss)
Unique-cons s ss = ground (arith, mem_text_iff s ss)

pub mem_text-append :
    (s : String) (xs ys : List String) → mem_text s (xs ++ ys) ≡ (mem_text s xs || mem_text s ys)
mem_text-append s [] ys = refl
mem_text-append s (x ∷ xs) ys = ground (arith, mem_text-append s xs ys)

-- A test of a text that equals another gives the same answer.
pub test_eq : (p : String → Bool) (s t : String) → str_eq t s ≡ true → p t ≡ p s
test_eq p s t h = ap p ((eq_iff t s).0 h)

pub mem_text-keep :
    (p : String → Bool) (s : String) (xs : List String)
    → mem_text s (keep p xs) ≡ (mem_text s xs && p s)
mem_text-keep p s [] = refl
mem_text-keep p s (x ∷ xs) = ground (arith, mem_text-keep p s xs, test_eq p s x)

pub keep-Unique : (p : String → Bool) (xs : List String) → Unique xs → Unique (keep p xs)
keep-Unique p [] h = tt
keep-Unique p (x ∷ xs) h =
    ground (
      arith,
      keep-Unique p xs h.1,
      mem_text-keep p x xs,
      Unique-cons x xs,
      Unique-cons x (keep p xs),
    )

pub Unique-snoc :
    (xs : List String) (s : String) → Unique xs → mem_text s xs ≡ false → Unique (xs ++ s ∷ [])
Unique-snoc [] s h e = (tt, tt)
Unique-snoc (x ∷ xs) s h e = ground (
  arith,
  Unique-snoc xs s h.1,
  Unique-cons x xs,
  Unique-cons x (xs ++ s ∷ []),
  mem_text-append x xs (s ∷ []),
  eq_iff x s,
  eq_iff s x,
)

-- A predicate of every member, in both forms.
pub All-of_mem {ℓ} :
    (P : String → Type ℓ) (xs : List String)
    → ((s : String) → mem_text s xs ≡ true → P s)
    → All P xs
All-of_mem P [] h = tt
All-of_mem P (x ∷ xs) h =
    (h x (ground (arith, eq_iff x x)), All-of_mem P xs (λ s m. h s (ground arith)))

pub mem_of_All {ℓ} :
    (P : String → Type ℓ) (xs : List String) (s : String) → All P xs → mem_text s xs ≡ true → P s
mem_of_All P [] s h m = absurd (cc)
mem_of_All P (x ∷ xs) s h m = elim (Bool-cases (str_eq x s)) [
  | inl e ↦ subst P ((eq_iff x s).0 e) h.0
  | inr e ↦ mem_of_All P xs s h.1 (rw e at m)
]

-- A text that all others differ from, put on top of a list.
pub fresh-cons :
    (n : String) (seen names : List String)
    → All (λ t. t ≢ n) names
    → All (λ t. mem_text t seen ≡ false) names
    → All (λ t. mem_text t (n ∷ seen) ≡ false) names
fresh-cons n seen [] d h = tt
fresh-cons n seen (t ∷ names) d h = (ground (arith, eq_iff n t), fresh-cons n seen names d.1 h.1)

pub fresh-snoc :
    (n : String) (seen names : List String)
    → All (λ t. t ≢ n) names
    → All (λ t. mem_text t seen ≡ false) names
    → All (λ t. mem_text t (seen ++ n ∷ []) ≡ false) names
fresh-snoc n seen [] d h = tt
fresh-snoc n seen (t ∷ names) d h =
    (ground (arith, eq_iff n t, mem_text-append t seen (n ∷ [])), fresh-snoc n seen names d.1 h.1)
