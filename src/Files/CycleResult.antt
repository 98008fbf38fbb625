-- ===== src/Files/CycleResult.antt =====
-- backend/tailer/reader.go: what the compaction in the loop of `FileReader` leaves.
use logmara.Prelude.{
  ◌≤◌, ◌≡◌, ◌⊎◌, Bool, true, false, ◌&&◌, Option, some, [], ◌++◌, length, drop, if◌then◌else◌, Text,
  String, Reply, answered, failed_before, failed_after,
}
use logmara.Control.Flag.{is_paused}
use logmara.Files.Compact.{Trimmed}
use logmara.Files.Cycle.{
  CycleState, CycleAnswers, PurgeAnswers, CycleEnd, not_due, not_drained, not_compacted, compacted,
  flushed_pos_of, should_compact, enough_flushed,
}

-- The call took effect, whatever its client was told.
abbrev pub took : Reply → Bool
took answered = true
took failed_before = false
took failed_after = true

abbrev pub is_answered : Reply → Bool
is_answered answered = true
is_answered failed_before = false
is_answered failed_after = false

-- The key of the pause flag behind `Pause` and `Resume`.
abbrev pub stored_flag : CycleAnswers → CycleState → Option String
stored_flag a s =
    if took a.resume_set
    then some "0"
    else (if took a.pause_set then some "1" else s.ingestion.stored)

-- The replica is not paused, and the key is what the last `SET` that took effect wrote.
abbrev pub IsResumed : CycleAnswers → CycleState → CycleState → Type 0
IsResumed a s s' =
    (is_paused s.replica s'.ingestion ≡ false) × (s'.ingestion.stored ≡ stored_flag a s)

-- The queue and the tracker behind the purge.
abbrev pub Purged : PurgeAnswers → CycleState → CycleState → Type 0
Purged p s s' =
    (s'.queue ≡ (if p.has_pipeline && took p.purge then [] else s.queue))
    × (s'.counter ≡ (if p.has_pipeline && is_answered p.purge then 0 else s.counter))
    × (s'.flushed_pos
        ≡ (if p.has_pipeline && is_answered p.purge && took p.del then 0 else s.flushed_pos))

-- The log with what rsyslog appended to it.
abbrev pub grown : CycleAnswers → CycleState → Text
grown a s = s.disk.log ++ a.compact.appended

-- What the reader, the broker, the tracker and the disk held before, they hold after.
abbrev pub SameButFlag : CycleState → CycleState → Type 0
SameButFlag s s' = s' ≡ record s { ingestion = s'.ingestion }

abbrev pub CycleResult : CycleAnswers → CycleState → CycleEnd × CycleState → Type 0
CycleResult a s (not_due, s') = s' ≡ s
CycleResult a s (not_drained, s') = IsResumed a s s' × SameButFlag s s'
CycleResult a s (not_compacted, s') =
    IsResumed a s s'
    × (s'.file_pos ≡ s.file_pos)
    × Purged a.purged s s'
    × ((s'.disk.log ≡ grown a s) ⊎ Trimmed (drop s.flushed_pos (grown a s)) s'.disk.log)
CycleResult a s (compacted, s') =
    IsResumed a s s'
    × (s'.file_pos ≡ 0)
    × (s'.saved ≡ some 0)
    × Purged a.purged s s'
    × (((length s.disk.log ≤ s.flushed_pos) × (s'.disk.log ≡ grown a s))
        ⊎ Trimmed (drop s.flushed_pos (grown a s)) s'.disk.log)

-- The test of the loop: a compaction is due, and enough is flushed.
abbrev pub is_due : CycleAnswers → CycleState → Bool
is_due a s = should_compact a s && enough_flushed a.file_size (flushed_pos_of a.flushed s)

-- When the cycle ends in each way.
abbrev pub EndsWhen : CycleAnswers → CycleState → CycleEnd → Type 0
EndsWhen a s not_due = is_due a s ≡ false
EndsWhen a s not_drained = (is_due a s ≡ true) × (a.drained ≡ false)
EndsWhen a s not_compacted = (is_due a s ≡ true) × (a.drained ≡ true)
EndsWhen a s compacted = (is_due a s ≡ true) × (a.drained ≡ true)

-- The purge moves the queue and the tracker only.
abbrev Kept : CycleState → CycleState → Type 0
Kept s s' = (s'.file_pos ≡ s.file_pos) × (s'.replica ≡ s.replica) × (s'.ingestion ≡ s.ingestion)
