-- ===== src/Storage/Triples.antt =====
-- Triples for operations on files, for any faults: what holds before, what holds where the operation
-- finishes, and what holds where it throws or the process dies.
use pi_codex_adaptor.Prelude.{List}
use pi_codex_adaptor.Storage.Disk.{
  Files, Fault, works, fails, dies, created, Error, World, Ran, finished, threw, died, Io, ◌>>=◌,
  then_run, return, throw, catch, or_else, ran,
}

module _ {ℓ} {A : Type ℓ} where
  abbrev pub After : (A → Files → Type 0) → (Files → Type 0) → Ran A → Type 0
  After q r (finished a w) = q a w.files
  After q r (threw e w) = r w.files
  After q r (died w) = r w.files

  pub record Triple (p : Files → Type 0) (m : Io A) (q : A → Files → Type 0) (r : Files → Type 0)
      : Type 0 where
    pub holds : (w : World) → p w.files → After q r (m w)

  pub return-Triple :
      {p : Files → Type 0} {q : A → Files → Type 0} {r : Files → Type 0} (a : A)
      → ((d : Files) → p d → q a d)
      → Triple p (return a) q r
  unfolding return
  return-Triple a h = record { holds = λ w x. h w.files x }

  pub throw-Triple :
      {p : Files → Type 0} {q : A → Files → Type 0} {r : Files → Type 0} (e : Error)
      → ((d : Files) → p d → r d)
      → Triple p (throw e) q r
  unfolding throw
  throw-Triple e h = record { holds = λ w x. h w.files x }

  or_else-After :
      (q : A → Files → Type 0) (r s : Files → Type 0) (m : Ran A) (h : Error → Io A)
      → ((d : Files) → r d → s d)
      → After q r m
      → ((e : Error) → Triple r (h e) q s)
      → After q s (or_else m h)
  or_else-After q r s (finished a w) h into x y = x
  or_else-After q r s (threw e w) h into x y = (y e).holds w x
  or_else-After q r s (died w) h into x y = into w.files x

  pub catch-Triple :
      {p : Files → Type 0} {q : A → Files → Type 0} (r : Files → Type 0) {s : Files → Type 0}
      (m : Io A) (h : Error → Io A)
      → ((d : Files) → r d → s d)
      → Triple p m q r
      → ((e : Error) → Triple r (h e) q s)
      → Triple p (catch m h) q s
  unfolding catch
  catch-Triple {q = q} r {s} m h into x y = record {
    holds = λ w z. or_else-After q r s (m w) h into (x.holds w z) y;
  }

  -- An operation that works or leaves the files as they were.
  pub ran-After :
      (q : A → Files → Type 0) (r : Files → Type 0) (f : Fault) (e : Error) (a : A)
      (before after : Files) (fs : List Fault)
      → r before
      → q a after
      → After q r (ran f e a before after fs)
  ran-After q r works e a before after fs x y = y
  ran-After q r fails e a before after fs x y = x
  ran-After q r dies e a before after fs x y = x
  ran-After q r (created c) e a before after fs x y = y

module _ {ℓ κ} {A : Type ℓ} {B : Type κ} where
  then_run-After :
      (q : A → Files → Type 0) (s : B → Files → Type 0) (r : Files → Type 0) (m : Ran A)
      (f : A → Io B)
      → After q r m
      → ((a : A) → Triple (q a) (f a) s r)
      → After s r (then_run m f)
  then_run-After q s r (finished a w) f x y = (y a).holds w x
  then_run-After q s r (threw e w) f x y = x
  then_run-After q s r (died w) f x y = x

  pub bind-Triple :
      {p : Files → Type 0} (q : A → Files → Type 0) {s : B → Files → Type 0} {r : Files → Type 0}
      (m : Io A) (f : A → Io B)
      → Triple p m q r
      → ((a : A) → Triple (q a) (f a) s r)
      → Triple p (m >>= f) s r
  unfolding ◌>>=◌
  bind-Triple q {s} {r} m f x y = record {
    holds = λ w z. then_run-After q s r (m w) f (x.holds w z) y;
  }

module _ {ℓ} {A : Type ℓ} where
  weaken-After :
      (q : A → Files → Type 0) (r s : Files → Type 0) (m : Ran A)
      → ((d : Files) → r d → s d)
      → After q r m
      → After q s m
  weaken-After q r s (finished a w) into x = x
  weaken-After q r s (threw e w) into x = into w.files x
  weaken-After q r s (died w) into x = into w.files x

  pub weaken-Triple :
      {p : Files → Type 0} {q : A → Files → Type 0} {r s : Files → Type 0} {m : Io A}
      → ((d : Files) → r d → s d)
      → Triple p m q r
      → Triple p m q s
  weaken-Triple {q = q} {r} {s} {m} into x = record {
    holds = λ w z. weaken-After q r s (m w) into (x.holds w z);
  }

  implied-After :
      (q s : A → Files → Type 0) (r : Files → Type 0) (m : Ran A)
      → ((a : A) (d : Files) → q a d → s a d)
      → After q r m
      → After s r m
  implied-After q s r (finished a w) into x = into a w.files x
  implied-After q s r (threw e w) into x = x
  implied-After q s r (died w) into x = x

  pub after-Triple :
      {p : Files → Type 0} {q s : A → Files → Type 0} {r : Files → Type 0} {m : Io A}
      → ((a : A) (d : Files) → q a d → s a d)
      → Triple p m q r
      → Triple p m s r
  after-Triple {q = q} {s} {r} {m} into x = record {
    holds = λ w z. implied-After q s r (m w) into (x.holds w z);
  }

  -- A fact that does not depend on the files.
  pub assume-Triple :
      {p : Files → Type 0} {m : Io A} {q : A → Files → Type 0} {r : Files → Type 0} (fact : Type 0)
      → (fact → Triple p m q r)
      → Triple (λ d. p d × fact) m q r
  assume-Triple fact h = record { holds = λ w (x, y). (h y).holds w x }
