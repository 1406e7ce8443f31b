-- ===== src/Compaction/Threshold.antt =====
-- `resolveCompactionThreshold` and `shouldCreateAutomaticCheckpoint` of
-- src/application/compaction.ts.
use pi_codex_adaptor.Prelude.{
  ℕ, ◌≤◌, ◌<◌, Bool, true, false, not, ◌&&◌, ◌≡◌, Option, none, some, arith, ltb, leb,
  if◌then◌else◌,
}
use pi_codex_adaptor.Value.{Number, pos, fraction, infinity, nan, is_positive}
use pi_codex_adaptor.Config.Schema.{CompactionConfig, model, tokens}

-- `Number.isFinite(n)`
abbrev pub is_finite : Number → Bool
is_finite (infinity negative) = false
is_finite nan = false
is_finite _ = true

-- `Math.trunc(n)` of a positive finite number.
abbrev pub truncate : Number → ℕ
truncate (pos n) = n
truncate (fraction negative n) = n
truncate _ = 0

-- `a < n` for an integer a at least 0.
abbrev pub below : ℕ → Number → Bool
below a (pos n) = ltb a n
below a (fraction false n) = leb a n
below a (infinity false) = true
below a _ = false

-- The limit that the configuration or the model's metadata gives; none is null.
abbrev pub candidate : CompactionConfig → Option Number → Option Number
candidate CompactionConfig.off limit = none
candidate (CompactionConfig.auto (tokens n)) limit = some (pos n)
candidate (CompactionConfig.auto model) limit = limit

unfoldable pub threshold_below : Option Number → Number → Option ℕ
threshold_below none window = none
threshold_below (some limit) window =
    if is_finite limit && is_positive limit && below (truncate limit) window
    then some (truncate limit)
    else none

unfoldable pub resolve_compaction_threshold : CompactionConfig → Option Number → Number → Option ℕ
unfolding threshold_below
resolve_compaction_threshold compaction limit window =
    if is_finite window && is_positive window
    then threshold_below (candidate compaction limit) window
    else none

-- `tokens >= threshold` of a finite number of tokens.
abbrev pub at_least : Number → ℕ → Bool
at_least (pos n) threshold = leb threshold n
at_least (fraction false n) threshold = leb threshold n
at_least _ threshold = false

abbrev is_auto : CompactionConfig → Bool
is_auto (CompactionConfig.auto limit) = true
is_auto CompactionConfig.off = false

abbrev reaches_threshold : Option Number → Option ℕ → Bool
reaches_threshold (some used) (some threshold) = is_finite used && at_least used threshold
reaches_threshold _ _ = false

unfoldable pub should_create_automatic_checkpoint :
    CompactionConfig → Option Number → Option ℕ → Bool → Bool → Bool
should_create_automatic_checkpoint compaction used threshold has_input busy =
    is_auto compaction && reaches_threshold used threshold && has_input && not busy

-- With a whole context window of w tokens and a configured limit of n, the threshold is n if 0 < n
-- < w, and there is none otherwise.
pub resolve_compaction_threshold-tokens :
    (n w : ℕ) (limit : Option Number)
    → resolve_compaction_threshold (CompactionConfig.auto (tokens n)) limit (pos w)
      ≡ (if ltb 0 n && ltb n w then some n else none)
unfolding resolve_compaction_threshold
resolve_compaction_threshold-tokens n w limit = ground arith

-- A compaction threshold that is resolved for a whole context window lies below it.
pub resolve_compaction_threshold-below :
    (compaction : CompactionConfig) (limit : Option Number) (w t : ℕ)
    → resolve_compaction_threshold compaction limit (pos w) ≡ some t
    → t < w
unfolding resolve_compaction_threshold
resolve_compaction_threshold-below compaction limit w t h = ground arith

-- Once the used tokens reach a whole context window for which a threshold is resolved, an automatic
-- checkpoint is due if there is new input and no compaction is busy.
pub should_create-full :
    (compaction : CompactionConfig) (limit : Option Number) (w t k : ℕ)
    → resolve_compaction_threshold compaction limit (pos w) ≡ some t
    → w ≤ k
    → should_create_automatic_checkpoint compaction
        (some (pos k))
        (resolve_compaction_threshold compaction limit (pos w))
        true
        false
      ≡ true
unfolding should_create_automatic_checkpoint
should_create-full CompactionConfig.off limit w t k h le =
    absurd (unfold resolve_compaction_threshold in ground arith)
should_create-full (CompactionConfig.auto l) limit w t k h le =
    rw h (ground (arith, resolve_compaction_threshold-below (CompactionConfig.auto l) limit w t h))
