-- ===== src/Compaction/Strict.antt =====
-- The strict JSON test of src/application/compaction.ts: which values pass it.
use pi_codex_adaptor.Prelude.{true, ◌≡◌, ◌↔◌, arith}
use pi_codex_adaptor.Value.{
  Number, pos, negsuc, fraction, infinity, nan, Value, undefined, null, bool, number, text, array,
  object, Items, nil, cons, Fields, end, field,
}
use pi_codex_adaptor.Compaction.Threshold.{is_finite}
use pi_codex_adaptor.Compaction.Checkpoint.{is_strict, are_strict, has_strict}

-- A number that JSON can print: neither an infinity nor NaN.
abbrev pub IsFinite : Number → Type 0
IsFinite (infinity negative) = ⊥
IsFinite nan = ⊥
IsFinite _ = Unit

-- A value without undefined and without such numbers, at any depth.
unfoldable mutual
  pub IsJson : Value → Type 0
  IsJson undefined = ⊥
  IsJson null = Unit
  IsJson (bool b) = Unit
  IsJson (number n) = IsFinite n
  IsJson (text s) = Unit
  IsJson (array vs) = AreJson vs
  IsJson (object fs) = HasJson fs

  pub AreJson : Items → Type 0
  AreJson nil = Unit
  AreJson (cons v vs) = IsJson v × AreJson vs

  pub HasJson : Fields → Type 0
  HasJson end = Unit
  HasJson (field k v fs) = IsJson v × HasJson fs

is_finite_iff : (n : Number) → (is_finite n ≡ true) ↔ IsFinite n
is_finite_iff (pos n) = ground arith
is_finite_iff (negsuc n) = ground arith
is_finite_iff (fraction b n) = ground arith
is_finite_iff (infinity b) = ground arith
is_finite_iff nan = ground arith

mutual
  unfolding is_strict are_strict has_strict IsJson AreJson HasJson

  is_strict_iff : (v : Value) → (is_strict v ≡ true) ↔ IsJson v
  is_strict_iff undefined = ground arith
  is_strict_iff null = ground arith
  is_strict_iff (bool b) = ground arith
  is_strict_iff (number n) = is_finite_iff n
  is_strict_iff (text s) = ground arith
  is_strict_iff (array vs) = are_strict_iff vs
  is_strict_iff (object fs) = has_strict_iff fs

  are_strict_iff : (vs : Items) → (are_strict vs ≡ true) ↔ AreJson vs
  are_strict_iff nil = ground arith
  are_strict_iff (cons v vs) = ground (arith, is_strict_iff v, are_strict_iff vs)

  pub has_strict_iff : (fs : Fields) → (has_strict fs ≡ true) ↔ HasJson fs
  has_strict_iff end = ground arith
  has_strict_iff (field k v fs) = ground (arith, is_strict_iff v, has_strict_iff fs)
