-- ===== src/Config/Valid.antt =====
-- What `parseConfig` of src/domain/config.ts guarantees of a configuration that it returns.
use mathlib.Core.Path.{subst}
use pi_codex_adaptor.Prelude.{
  ℕ, ◌≤◌, ◌<◌, String, true, false, ◌≡◌, ◌≢◌, ◌↔◌, refl, ◌∙◌, Option, none, some, List, [], ◌∷◌,
  arith, All, any, Option-cases, inl, inr, Unique, mem_text_iff, codes, codes_eq, trim,
  utf16_length,
}
use pi_codex_adaptor.Value.{
  Value, text, array, get, Fields, number, pos, items, texts, max_safe_integer,
}
use pi_codex_adaptor.Config.Schema.{
  Activation, CompactionConfig, TokenLimit, model, tokens, CodexConfig, Codex, Tools, Security, Ui,
  ServiceTier, Verbosity, TransportMode, WebSearchMode,
}
use pi_codex_adaptor.Config.Issues.{Parsed, ◌>>=◌, ◌>>◌, pure, exact_keys}
use pi_codex_adaptor.Config.Parse.{
  parse_activation, parse_provider_array, token_limit, parse_auto, parse_compaction, Mode, off,
  auto, make_codex, parse_codex, parse_root, parse_config, make_config, conclude, ok, is_line_break,
  is_bad_provider, rejects_provider, has_duplicates, parse_providers,
}

-- A text that is not blank, has no white space at its ends, at most 256 UTF-16 units and no line
-- break.
pub record IsProviderCodes (cs : List ℕ) : Type 0 where
  pub given : cs ≢ []
  pub trimmed : trim cs ≡ cs
  pub short : utf16_length cs ≤ 256
  pub one_line : All (λ c. (c ≢ 13) × (c ≢ 10)) cs

abbrev pub IsProviderId : String → Type 0
IsProviderId s = IsProviderCodes (codes s)

abbrev pub IsLimit : CompactionConfig → Type 0
IsLimit CompactionConfig.off = Unit
IsLimit (CompactionConfig.auto model) = Unit
IsLimit (CompactionConfig.auto (tokens n)) = (0 < n) × (n ≤ max_safe_integer)

pub record IsActivation (a : Activation) : Type 0 where
  pub some_provider : a.providers ≢ []
  pub provider_ids : All IsProviderId a.providers
  pub unique : Unique a.providers

pub record IsValid (c : CodexConfig) : Type 0 where
  pub activation : IsActivation c.activation
  pub limit : IsLimit c.codex.compaction

pub codes_eq_iff : (as' bs : List ℕ) → (codes_eq as' bs ≡ true) ↔ (as' ≡ bs)
unfolding codes_eq
codes_eq_iff [] [] = ground arith
codes_eq_iff [] (b ∷ bs) = ground arith
codes_eq_iff (a ∷ as') [] = ground arith
codes_eq_iff (a ∷ as') (b ∷ bs) = ground (arith, codes_eq_iff as' bs)

any-is_line_break :
    (cs : List ℕ) → (any is_line_break cs ≡ false) ↔ All (λ c. (c ≢ 13) × (c ≢ 10)) cs
any-is_line_break [] = ground arith
any-is_line_break (c ∷ cs) = ground (arith, any-is_line_break cs)

-- The test of a provider id accepts exactly the trimmed non-empty single lines of at most 256
-- UTF-16 units.
pub is_bad_provider_iff : (cs : List ℕ) → (is_bad_provider cs ≡ false) ↔ IsProviderCodes cs
unfolding is_bad_provider
is_bad_provider_iff cs = (
  λ h. record {
    given = ground (arith, codes_eq_iff cs (trim cs), any-is_line_break cs);
    trimmed = ground (arith, codes_eq_iff cs (trim cs));
    short = ground arith;
    one_line = (any-is_line_break cs).0 (ground arith);
  },
  λ p. ground (
    arith,
    codes_eq_iff cs (trim cs),
    any-is_line_break cs,
    p.given,
    p.trimmed,
    p.short,
    p.one_line,
  ),
)

-- A list of values that the code lets through holds provider ids alone.
any-rejects_provider :
    (vs : List Value) → any rejects_provider vs ≡ false → All IsProviderId (texts vs)
unfolding texts rejects_provider
any-rejects_provider [] h = tt
any-rejects_provider (text s ∷ vs) h =
    ((is_bad_provider_iff (codes s)).0 (ground arith), any-rejects_provider vs (ground arith))
any-rejects_provider (_ ∷ vs) h = any-rejects_provider vs (ground arith)

length-texts : (vs : List Value) → any rejects_provider vs ≡ false → texts vs ≡ [] → vs ≡ []
unfolding texts rejects_provider
length-texts [] h e = refl
length-texts (text s ∷ vs) h e = absurd (cc)
length-texts (_ ∷ vs) h e = absurd (ground arith)

pub has_duplicates_iff : (ss : List String) → (has_duplicates ss ≡ false) ↔ Unique ss
unfolding has_duplicates
has_duplicates_iff [] = ground arith
has_duplicates_iff (s ∷ ss) = ground (arith, mem_text_iff s ss, has_duplicates_iff ss)

some-inj : {A : Type 0} {a b : A} → some a ≡ some b → a ≡ b
some-inj e = cc

-- What holds of the value of a step, if it has one.
record Ensures {A : Type 0} (P : A → Type 0) (m : Parsed (Option A)) : Type 0 where
  post : (a : A) → m.0 ≡ some a → P a

module _ {A : Type 0} {P : A → Type 0} where
  none-Ensures : (m : Parsed (Option A)) → m.0 ≡ none → Ensures P m
  none-Ensures m h = record { post = λ a e. absurd (cc) }

  pure-Ensures : {a : A} → P a → Ensures P (pure (some a))
  pure-Ensures p = record { post = λ b e. subst P (some-inj e) p }

  bind-Ensures :
      {B : Type 0} (m : Parsed B) (f : B → Parsed (Option A))
      → ((b : B) → m.0 ≡ b → Ensures P (f b))
      → Ensures P (m >>= f)
  unfolding ◌>>=◌
  bind-Ensures m f h = record { post = (h m.0 refl).post }

  then-Ensures :
      {B : Type 0} (m : Parsed B) (f : B → Parsed (Option A))
      → ((b : B) → Ensures P (f b))
      → Ensures P (m >>= f)
  unfolding ◌>>=◌
  then-Ensures m f h = record { post = (h m.0).post }

  some-Ensures :
      {B : Type 0} (m : Parsed (Option B)) (f : Option B → Parsed (Option A))
      → (f none).0 ≡ none
      → ((b : B) → m.0 ≡ some b → Ensures P (f (some b)))
      → Ensures P (m >>= f)
  unfolding ◌>>=◌
  some-Ensures m f hn h = elim (Option-cases m.0) [
    | inl e ↦ record { post = λ a ea. absurd (let x : (f none).0 ≡ some a = rw e at ea in cc) }
    | inr (b, e) ↦ record { post = λ a ea. (h b e).post a (rw e at ea) }
  ]

parse_providers-Ensures : (vs : List Value) → Ensures IsActivation (parse_providers vs)
unfolding parse_providers
parse_providers-Ensures vs = record {
  post = λ a e. record {
    some_provider = ground (arith, length-texts vs);
    provider_ids = ground (arith, any-rejects_provider vs);
    unique = ground (arith, (has_duplicates_iff (texts vs)).0);
  };
}

parse_activation-Ensures : (v : Value) → Ensures IsActivation (parse_activation v)
unfolding parse_activation parse_provider_array
parse_activation-Ensures v =
    some-Ensures _ _ refl λ fs _. then-Ensures _ _ λ _. by_value (get "providers" fs)
  where
    by_value : (p : Value) → Ensures IsActivation (parse_provider_array p)
    by_value (array vs) = parse_providers-Ensures (items vs)
    by_value _ = none-Ensures _ refl

token_limit-IsLimit :
    (v : Value) (l : TokenLimit) → token_limit v ≡ some l → IsLimit (CompactionConfig.auto l)
unfolding token_limit
token_limit-IsLimit (text s) model e = tt
token_limit-IsLimit (text s) (tokens n) e = absurd (ground arith)
token_limit-IsLimit (number (pos n)) model e = tt
token_limit-IsLimit (number (pos n)) (tokens m) e = ground arith
token_limit-IsLimit _ l e = absurd (ground arith)

parse_auto-Ensures : (fs : Fields) → Ensures IsLimit (parse_auto fs)
unfolding parse_auto
parse_auto-Ensures fs = then-Ensures _ _ λ _.
    elim (Option-cases (token_limit (get "autoCompactTokenLimit" fs))) [
      | inl e ↦ rw e (none-Ensures _ refl)
      | inr (l, e) ↦ rw e (pure-Ensures (token_limit-IsLimit _ l e))
    ]

parse_compaction-Ensures : (v : Value) → Ensures IsLimit (parse_compaction v)
unfolding parse_compaction
parse_compaction-Ensures v = some-Ensures _ _ refl λ fs _. some-Ensures _ _ refl λ m _. by_mode fs m
  where
    by_mode :
        (fs : Fields) (m : Mode)
        → Ensures IsLimit (elim m [
          | off ↦ exact_keys fs ("mode" ∷ []) "codex.compaction" >> pure (some CompactionConfig.off)
          | auto ↦ parse_auto fs
        ])
    by_mode fs off = then-Ensures _ _ λ _. pure-Ensures tt
    by_mode fs auto = parse_auto-Ensures fs

make_codex-compaction :
    (t : Option ServiceTier) (v : Option Verbosity) (m : Option TransportMode)
    (w : Option WebSearchMode) (c : Option CompactionConfig) (a : Codex)
    → make_codex t v m w c ≡ some a
    → c ≡ some a.compaction
make_codex-compaction t v m w c a e = ground arith

make_codex-none :
    (t : Option ServiceTier) (v : Option Verbosity) (m : Option TransportMode)
    (w : Option WebSearchMode)
    → make_codex t v m w none ≡ none
make_codex-none t v m w = ground arith

parse_codex-Ensures : (v : Value) → Ensures (λ c. IsLimit c.compaction) (parse_codex v)
unfolding parse_codex
parse_codex-Ensures v = some-Ensures _ _ refl λ fs _. then-Ensures _ _ λ _. then-Ensures _ _ λ t.
    then-Ensures _ _ λ b. then-Ensures _ _ λ m. then-Ensures _ _ λ w.
      some-Ensures _ _ (make_codex-none t b m w) λ c e. record {
        post = λ a ea.
            subst IsLimit (some-inj (make_codex-compaction t b m w (some c) a ea))
              ((parse_compaction-Ensures _).post c e);
      }

make_config-parts :
    (v : Option (Unit {0})) (a : Option Activation) (t : Option Tools) (s : Option Security)
    (c : Option Codex) (u : Option Ui) (r : CodexConfig)
    → make_config v a t s c u ≡ some r
    → (a ≡ some r.activation) × (c ≡ some r.codex)
make_config-parts v a t s c u r e = ground arith

parse_root-Ensures : (fs : Fields) → Ensures IsValid (parse_root fs)
unfolding parse_root
parse_root-Ensures fs = then-Ensures _ _ λ _. then-Ensures _ _ λ v. bind-Ensures _ _ λ a ea.
    then-Ensures _ _ λ t. then-Ensures _ _ λ s. bind-Ensures _ _ λ c ec. then-Ensures _ _ λ u.
      record {
        post = λ r er.
            let (pa, pc) = make_config-parts v a t s c u r er in
            record {
              activation = (parse_activation-Ensures _).post r.activation (ea ∙ pa);
              limit = (parse_codex-Ensures _).post r.codex (ec ∙ pc);
            };
      }

pub conclude-eq-ok :
    {A : Type 0} (m : Parsed (Option A)) (a : A) → conclude m ≡ ok a → (m.0 ≡ some a) × (m.1 ≡ [])
unfolding conclude
conclude-eq-ok m a e = ground arith

-- Every configuration that parseConfig returns has at least one provider, each a trimmed single
-- line of 1 to 256 UTF-16 units and none twice, and a limit that is a positive safe integer if it
-- is a number.
pub parse_config-IsValid : (v : Value) (c : CodexConfig) → parse_config v ≡ ok c → IsValid c
unfolding parse_config
parse_config-IsValid v c e =
    (some-Ensures _ _ refl λ fs _. parse_root-Ensures fs).post c (conclude-eq-ok _ c e).0
