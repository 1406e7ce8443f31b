-- ===== src/Compaction/Keys.antt =====
-- src/application/compaction.ts: the key of an identity, whose fields are joined by a control
-- character.
use Prim.Native.Char.{Char, code}
use Prim.Native.String.{◌++◌ as ◌<>◌}
use text.Mathlib.TextLemmas.{append_cancel_left, nil-append, cons-append}
use pi_codex_adaptor.Prelude.{
  ℕ, String, Bool, true, false, not, ◌&&◌, ◌≡◌, refl, sym, ap, ◌∙◌, codes, arith, ◌==◌, leb,
  utf16_length, length, trim,
}
use pi_codex_adaptor.Compaction.Store.{
  Identity, AuthenticationKind, jwt_account, credential, kind_text, identity_key,
}
use pi_codex_adaptor.Compaction.Persisted.{valid_parts}
use pi_codex_adaptor.Compaction.Saved.{
  has_control_character, is_required_text, is_valid_identity, max_identity_field_length,
}

abbrev first : String → ℕ
first String.[] = 0
first (String.◌∷◌ c s) = code c

abbrev rest : String → String
rest String.[] = String.[]
rest (String.◌∷◌ c s) = s

cons_eq : (x y : Char) (s t : String) → String.◌∷◌ x s ≡ String.◌∷◌ y t → (x ≡ y) × (s ≡ t)
cons_eq x y s t h = (cc, ap rest h)

cons_cong : (x y : Char) (s t : String) → x ≡ y → s ≡ t → String.◌∷◌ x s ≡ String.◌∷◌ y t
cons_cong x y s t e f = cc

first-append : (s t : String) → first s ≡ 1 → first (s <> t) ≡ 1
first-append String.[] t h = absurd (omega (arith, h))
first-append (String.◌∷◌ c s) t h = ap first (cons-append c s t) ∙ h

first-separator : (b : String) → first ("" <> ("\u{1}" <> b)) ≡ 1
first-separator b = ap first (nil-append ("\u{1}" <> b)) ∙ first-append "\u{1}" b refl

first-cons : (y : Char) (c t : String) → first (String.◌∷◌ y c <> t) ≡ code y
first-cons y c t = ap first (cons-append y c t)

-- The first separator of a joined text ends the first field, if no field has it.
split_join :
    (a b c d : String)
    → has_control_character (codes a) ≡ false
    → has_control_character (codes c) ≡ false
    → a <> ("\u{1}" <> b) ≡ c <> ("\u{1}" <> d)
    → (a ≡ c) × (b ≡ d)
unfolding has_control_character
split_join String.[] b String.[] d ha hc h =
    (refl, append_cancel_left "\u{1}" b d (append_cancel_left "" _ _ h))
split_join String.[] b (String.◌∷◌ y c) d ha hc h =
    let same : code y ≡ 1 = sym (first-cons y c _) ∙ sym (ap first h) ∙ first-separator b in
    absurd (ground (arith, same))
split_join (String.◌∷◌ x a) b String.[] d ha hc h =
    let same : code x ≡ 1 = sym (first-cons x a _) ∙ ap first h ∙ first-separator d in
    absurd (ground (arith, same))
split_join (String.◌∷◌ x a) b (String.◌∷◌ y c) d ha hc h =
    let (e, f) =
      cons_eq x y (a <> ("\u{1}" <> b)) (c <> ("\u{1}" <> d))
        (sym (cons-append x a _) ∙ h ∙ cons-append y c _) in
    let (k, l) = split_join a b c d (ground arith) (ground arith) f in (cons_cong x y a c e k, l)

last_test : (a b c d : Bool) → (a && b && c && not d) ≡ true → d ≡ false
last_test a b c d h = ground arith

field_text :
    (s : String)
    → is_required_text max_identity_field_length s ≡ true
    → has_control_character (codes s) ≡ false
unfolding is_required_text
field_text s h =
    last_test (not (utf16_length (codes s) == 0))
      (leb (utf16_length (codes s)) max_identity_field_length) (not (length (trim (codes s)) == 0))
      (has_control_character (codes s)) h

kind_text-plain : (k : AuthenticationKind) → has_control_character (codes (kind_text k)) ≡ false
unfolding has_control_character
kind_text-plain jwt_account = refl
kind_text-plain credential = refl

kind_text-injective : (j k : AuthenticationKind) → kind_text j ≡ kind_text k → j ≡ k
kind_text-injective jwt_account jwt_account h = refl
kind_text-injective credential credential h = refl
kind_text-injective jwt_account credential h = absurd (ground (arith, ap first h))
kind_text-injective credential jwt_account h = absurd (ground (arith, ap first h))

-- Two identities that validateIdentity lets pass have the same identityKey only if they are equal,
-- although the key joins their fields.
pub identity_key-injective :
    (i j : Identity)
    → is_valid_identity i ≡ true
    → is_valid_identity j ≡ true
    → identity_key i ≡ identity_key j
    → i ≡ j
unfolding identity_key
identity_key-injective i j vi vj h =
    let (si, pi, ai, bi, mi, fi) = valid_parts i vi in
    let (sj, pj, aj, bj, mj, fj) = valid_parts j vj in
    let (e1, h1) = split_join _ _ _ _ (field_text _ si) (field_text _ sj) h in
    let (e2, h2) = split_join _ _ _ _ (field_text _ pi) (field_text _ pj) h1 in
    let (e3, h3) = split_join _ _ _ _ (field_text _ ai) (field_text _ aj) h2 in
    let (e4, h4) = split_join _ _ _ _ (field_text _ bi) (field_text _ bj) h3 in
    let (e5, h5) = split_join _ _ _ _ (field_text _ mi) (field_text _ mj) h4 in
    let (e6, e7) =
      split_join _ _ _ _ (kind_text-plain i.authentication_kind)
        (kind_text-plain j.authentication_kind) h5 in
    let e8 = kind_text-injective i.authentication_kind j.authentication_kind e6 in cc
