-- ===== src/Storage/Atomic.antt =====
-- What `save` of src/infrastructure/configuration/file-config-repository.ts leaves, whatever fails and
-- wherever the process dies.
use pi_codex_adaptor.Prelude.{Bool, true, ◌≡◌, refl, sym, subst, Option, some, none}
use pi_codex_adaptor.Storage.Disk.{
  Content, not_json, Files, FilePath, put, Error, io_error, ◌>>=◌, throw, next_fault, later_faults,
}
use pi_codex_adaptor.Storage.Repository.{
  touch, open_temporary, write_temporary, rename, remove, remove_temporary, atomic_write,
}
use pi_codex_adaptor.Storage.Triples.{
  Triple, return-Triple, throw-Triple, catch-Triple, ran-After, bind-Triple,
}

pub touch-Triple : (p : Files → Type 0) → Triple p touch (λ a. p) p
unfolding touch
touch-Triple p = record {
  holds = λ w x.
      ran-After (λ a. p) p (next_fault w.faults) io_error true w.files w.files
        (later_faults w.faults) x x;
}

-- Closing the handle after an error, which is thrown again.
pub closing-Triple :
    (p : Files → Type 0) (q : Bool → Files → Type 0) (e : Error)
    → Triple p (touch >>= λ b. throw e) q p
closing-Triple p q e =
    bind-Triple (λ a. p) touch _ (touch-Triple p) (λ a. throw-Triple e (λ d x. x))

module _ (p q : Files → Type 0)
    (free : (d : Files) (t : Option Content) → p d → p (record d { temporary = t })) where
  abbrev Written : Content → Bool → Files → Type 0
  Written c b d = p d × (d.temporary ≡ some c)

  open-Triple : Triple p open_temporary (λ a. p) p
  unfolding open_temporary
  open-Triple = record {
    holds = λ w x.
        ran-After (λ a. p) p (next_fault w.faults) io_error true w.files
          (record w.files { temporary = some not_json }) (later_faults w.faults) x
          (free w.files (some not_json) x);
  }

  write-Triple : (c : Content) → Triple p (write_temporary c) (Written c) p
  unfolding write_temporary
  write-Triple c = record {
    holds = λ w x.
        ran-After (Written c) p (next_fault w.faults) io_error true w.files
          (record w.files { temporary = some c }) (later_faults w.faults) x
          (free w.files (some c) x, refl);
  }

  still-Triple : (c : Content) → Triple (Written c true) touch (Written c) p
  unfolding touch
  still-Triple c = record {
    holds = λ w x.
        ran-After (Written c) p (next_fault w.faults) io_error true w.files w.files
          (later_faults w.faults) x.0 x;
  }

  remove-Triple : Triple p remove_temporary (λ a. p) p
  unfolding remove_temporary remove
  remove-Triple =
      catch-Triple p remove _ (λ d x. x)
        (record {
          holds = λ w x.
              ran-After (λ a. p) p (next_fault w.faults) io_error true w.files
                (record w.files { temporary = none }) (later_faults w.faults) x
                (free w.files none x);
        })
        (λ e. return-Triple true (λ d x. x))

  rename-Triple :
      (path : FilePath) (c : Content)
      → ((d : Files) → p d → q (record (put path (some c) d) { temporary = none }))
      → Triple (Written c true) (rename path) (λ a. q) p
  unfolding rename
  rename-Triple path c step = record {
    holds = λ w x.
        ran-After (λ a. q) p (next_fault w.faults) io_error true w.files
          (record (put path w.files.temporary w.files) { temporary = none }) (later_faults w.faults)
          x.0
          (subst (λ t. q (record (put path t w.files) { temporary = none })) (sym x.1)
            (step w.files x.0));
  }

  -- A file is replaced whole or not at all.
  pub atomic_write-Triple :
      (path : FilePath) (c : Content)
      → ((d : Files) → p d → q (record (put path (some c) d) { temporary = none }))
      → Triple p (atomic_write path c) (λ a. q) p
  unfolding atomic_write
  atomic_write-Triple path c step =
      catch-Triple p _ _ (λ d x. x)
        (bind-Triple (λ a. p) open_temporary _ open-Triple
          (λ a.
            bind-Triple (Written c) _ _
              (catch-Triple p _ _ (λ d x. x)
                (bind-Triple (Written c) (write_temporary c) _ (write-Triple c)
                  (λ b. still-Triple c))
                (λ e. closing-Triple p (Written c) e))
              (λ b.
                bind-Triple (Written c) touch _ (still-Triple c)
                  (λ closed. rename-Triple path c step))))
        (λ e.
          bind-Triple (λ a. p) remove_temporary _ remove-Triple (λ a. throw-Triple _ (λ d x. x)))
