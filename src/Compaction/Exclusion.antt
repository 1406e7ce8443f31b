-- ===== src/Compaction/Exclusion.antt =====
-- The coordinator of src/application/compaction.ts admits one compaction at a time to a session.
use pi_codex_adaptor.Prelude.{
  ℕ, ◌+◌, ◌≤◌, String, Bool, true, false, ◌&&◌, ◌≡◌, refl, List, [], ◌∷◌, All, arith, str_eq,
  eq_iff, Bool-cases, inl, inr, if◌then◌else◌,
}
use pi_codex_adaptor.Prelude.Dict
use pi_codex_adaptor.Prelude.Dict.{lookup-insert, lookup-erase}
use pi_codex_adaptor.Compaction.Phases.{
  idle, pending, requested, executing, Sessions, holds_execution, Call, begins, requests, executes,
  ends, disposes, disposes_all, step,
}

-- The call gives the session up.
abbrev pub releases : String → Call → Bool
releases t (ends session) = str_eq session t
releases t (disposes session) = str_eq session t
releases t disposes_all = true
releases t _ = false

-- The call asks to run a compaction for the session.
abbrev pub starts : String → Call → Bool
starts t (begins session) = str_eq session t
starts t (executes session) = str_eq session t
starts t _ = false

-- The session that a call is about.
abbrev pub concerns : String → Call → Bool
concerns t (begins session) = str_eq session t
concerns t (requests session) = str_eq session t
concerns t (executes session) = str_eq session t
concerns t (ends session) = str_eq session t
concerns t (disposes session) = str_eq session t
concerns t disposes_all = true

-- How often a compaction of the session is granted.
unfoldable pub grants : String → Sessions → List Call → ℕ
grants t s [] = 0
grants t s (c ∷ cs) = (if starts t c && (step s c).1 then 1 else 0) + grants t (step s c).0 cs

-- A call about another session leaves the phase alone.
pub lookup-step :
    (t : String) (s : Sessions) (c : Call)
    → concerns t c ≡ false
    → Dict.lookup t (step s c).0 ≡ Dict.lookup t s
unfolding step
lookup-step t s (begins u) h = ground (arith, lookup-insert t u pending s)
lookup-step t s (requests u) h = ground (arith, lookup-insert t u requested s)
lookup-step t s (executes u) h = ground (arith, lookup-insert t u executing s)
lookup-step t s (ends u) h = ground (arith, lookup-insert t u idle s)
lookup-step t s (disposes u) h = ground (arith, lookup-erase t u s, eq_iff u t, eq_iff t u)
lookup-step t s disposes_all h = cc

-- While a compaction holds the session no call but a release changes that, and none starts another.
step_held :
    (t : String) (s : Sessions) (c : Call)
    → holds_execution (Dict.lookup t s) ≡ true
    → releases t c ≡ false
    → (holds_execution (Dict.lookup t (step s c).0) ≡ true) × ((starts t c && (step s c).1) ≡ false)
unfolding step
step_held t s (begins u) h r = ground (arith, lookup-insert t u pending s, eq_iff u t)
step_held t s (requests u) h r = ground (arith, lookup-insert t u requested s, eq_iff u t)
step_held t s (executes u) h r = ground (arith, lookup-insert t u executing s, eq_iff u t)
step_held t s (ends u) h r = ground (arith, lookup-insert t u idle s)
step_held t s (disposes u) h r = ground (arith, lookup-erase t u s, eq_iff u t, eq_iff t u)
step_held t s disposes_all h r = cc

grants_held :
    (t : String) (s : Sessions) (cs : List Call)
    → holds_execution (Dict.lookup t s) ≡ true
    → All (λ c. releases t c ≡ false) cs
    → grants t s cs ≡ 0
unfolding grants
grants_held t s [] h r = refl
grants_held t s (c ∷ cs) h r =
    let (held, quiet) = step_held t s c h r.0 in
    rw quiet (omega (arith, grants_held t (step s c).0 cs held r.1))

-- A start that is granted holds the session.
step_granted :
    (t : String) (s : Sessions) (c : Call)
    → (starts t c && (step s c).1) ≡ true
    → holds_execution (Dict.lookup t (step s c).0) ≡ true
unfolding step
step_granted t s (begins u) h = ground (arith, lookup-insert t u pending s)
step_granted t s (executes u) h = ground (arith, lookup-insert t u executing s)
step_granted t s _ h = cc

-- As long as no call releases a session, at most one compaction of it is granted, whatever the
-- calls are and in whatever state they begin.
pub grants-le-one :
    (t : String) (s : Sessions) (cs : List Call)
    → All (λ c. releases t c ≡ false) cs
    → grants t s cs ≤ 1
unfolding grants
grants-le-one t s [] r = omega arith
grants-le-one t s (c ∷ cs) r = elim (Bool-cases (starts t c && (step s c).1)) [
  | inl e ↦ rw e (omega (arith, grants_held t (step s c).0 cs (step_granted t s c e) r.1))
  | inr e ↦ rw e (omega (arith, grants-le-one t (step s c).0 cs r.1))
]
