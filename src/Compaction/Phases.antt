-- ===== src/Compaction/Phases.antt =====
-- `CodexCompactionCoordinator` of src/application/compaction.ts: the phase of each session.
use pi_codex_adaptor.Prelude.{String, Bool, true, false, Option, none, some, [], if◌then◌else◌}
use pi_codex_adaptor.Prelude.Dict
use pi_codex_adaptor.Prelude.Dict.{Dict}

pub data Phase : Type 0 where
  idle pending requested executing : Phase

abbrev pub Sessions : Type 0
Sessions = Dict Phase

-- The phase is there and is not idle.
abbrev pub is_active : Option Phase → Bool
is_active none = false
is_active (some idle) = false
is_active (some _) = true

-- `phase === "pending" || phase === "executing"`
abbrev pub holds_execution : Option Phase → Bool
holds_execution (some pending) = true
holds_execution (some executing) = true
holds_execution _ = false

unfoldable pub is_busy : String → Sessions → Bool
is_busy session s = is_active (Dict.lookup session s)

unfoldable pub begin : String → Sessions → Sessions × Bool
unfolding is_busy
begin session s = if is_busy session s then (s, false) else (Dict.insert session pending s, true)

unfoldable pub request_execution : String → Sessions → Sessions × Bool
unfolding is_busy
request_execution session s =
    if is_busy session s then (s, false) else (Dict.insert session requested s, true)

unfoldable pub begin_execution : String → Sessions → Sessions × Bool
begin_execution session s =
    if holds_execution (Dict.lookup session s)
    then (s, false)
    else (Dict.insert session executing s, true)

-- The outcome that `end` and `endPending` are given is not read.
unfoldable pub finish : String → Sessions → Sessions
finish session s = Dict.insert session idle s

unfoldable pub dispose : String → Sessions → Sessions
dispose session s = Dict.erase session s

unfoldable pub dispose_all : Sessions → Sessions
dispose_all s = []

pub data Call : Type 0 where
  begins requests executes ends disposes : String → Call
  disposes_all : Call

-- A call, and whether it was granted.
unfoldable pub step : Sessions → Call → Sessions × Bool
unfolding begin request_execution begin_execution finish dispose dispose_all
step s (begins session) = begin session s
step s (requests session) = request_execution session s
step s (executes session) = begin_execution session s
step s (ends session) = (finish session s, true)
step s (disposes session) = (dispose session s, true)
step s disposes_all = (dispose_all s, true)
