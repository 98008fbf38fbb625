-- ===== src/Files/Cycle.antt =====
-- backend/tailer/reader.go: the compaction in the loop of `FileReader`, with `waitForDrain`, and with
-- the leader's path of `PurgeTailerQueue` (backend/tailer/tailer.go). Nothing else moves the pause
-- flag within a cycle.
use logmara.Prelude.{
  ℕ, ◌-◌, ◌*◌, ◌/◌, Bool, true, false, ◌&&◌, ◌||◌, Option, none, some, List, [], ◌∷◌, if◌then◌else◌,
  ltb, ◌==◌, Reply, answered, failed_before, failed_after,
}
use logmara.Control.Flag.{Replicas, pause, resume}
use logmara.Flush.Tracker.{QueueEntry}
use logmara.Files.Compact.{
  Disk, CompactAnswers, Compacted, same_file, new_file, compact_error, compact_file,
}

-- One round of the wait: whether the context is done at its start, the entries that the workers hold
-- (`PendingCount`), whether the deadline is over, and whether the sleep was not interrupted.
pub record Poll : Type 0 where
  pub done : Bool
  pub pending : ℕ
  pub too_late : Bool
  pub slept : Bool

-- `none` while the wait goes on.
abbrev pub poll_step : Poll → Option Bool → Option Bool
poll_step p rest =
    if p.done
    then some false
    else (if p.pending == 0
        then some true
        else (if p.too_late then some false else (if p.slept then rest else some false)))

unfoldable pub wait_for_drain : List Poll → Option Bool
wait_for_drain [] = none
wait_for_drain (p ∷ ps) = poll_step p (wait_for_drain ps)

-- 30 minutes.
abbrev pub compaction_interval : ℕ
compaction_interval = 30 * 60 * 1000000000

abbrev pub max_file_size : ℕ
max_file_size = 100 * 1024 * 1024

-- What the reader, the ingestion controllers, the broker, the flush tracker and the disk hold.
-- `replica` is the reader's place among the controllers, `counter` the last number that the tracker
-- minted, and `saved` the position that `savePosition` was last called with.
pub record CycleState : Type 0 where
  pub file_pos : ℕ
  pub last_compaction : ℕ
  pub saved : Option ℕ
  pub replica : ℕ
  pub ingestion : Replicas
  pub queue : List QueueEntry
  pub counter : ℕ
  pub flushed_pos : ℕ
  pub disk : Disk

-- Whether the pipeline of the replica is there, and how `Purge` of the queue and `DEL` of the
-- tracker's hash end.
pub record PurgeAnswers : Type 0 where
  pub has_pipeline : Bool
  pub purge : Reply
  pub del : Reply

-- How `GetFlushedPos` ends, the size that the reader saw, the time at the test and after the
-- compaction, how the `SET` and the message of `Pause` and of `Resume` end, whether the drain is
-- confirmed, how the purge ends, and what the calls of `compactFile` return.
pub record CycleAnswers : Type 0 where
  pub flushed : Reply
  pub file_size : ℕ
  pub now : ℕ
  pub finished : ℕ
  pub pause_set : Reply
  pub pause_sent : Reply
  pub resume_set : Reply
  pub resume_sent : Reply
  pub drained : Bool
  pub purged : PurgeAnswers
  pub compact : CompactAnswers

-- The position of `GetFlushedPos`: an error reads as 0.
unfoldable pub flushed_pos_of : Reply → CycleState → ℕ
flushed_pos_of answered s = s.flushed_pos
flushed_pos_of failed_before s = 0
flushed_pos_of failed_after s = 0

-- `shouldCompact`.
unfoldable pub should_compact : CycleAnswers → CycleState → Bool
should_compact a s =
    ltb compaction_interval (a.now - s.last_compaction) || ltb max_file_size a.file_size

-- `enoughFlushed`; the difference is negative where the flushed position is behind the end.
unfoldable pub enough_flushed : ℕ → ℕ → Bool
enough_flushed size flushed =
    ltb 0 size && ltb 0 flushed && (ltb size flushed || ltb (size - flushed) (size / 4))

-- Nothing to do in this round; the drain was not confirmed; `compactFile` returned an error; or the
-- loop goes on behind a compaction.
pub data CycleEnd : Type 0 where
  not_due not_drained not_compacted compacted : CycleEnd

-- `Reset` of the flush tracker: the error of `DEL` is ignored, and the counter is reset in any case.
unfoldable pub reset_tracker : Reply → CycleState → CycleState
reset_tracker answered s = record s { flushed_pos = 0; counter = 0 }
reset_tracker failed_before s = record s { counter = 0 }
reset_tracker failed_after s = record s { flushed_pos = 0; counter = 0 }

-- `Purge` of the queue; its error leaves the tracker as it is.
unfoldable pub purge_queue : Reply → Reply → CycleState → CycleState
unfolding reset_tracker
purge_queue answered del s = reset_tracker del (record s { queue = [] })
purge_queue failed_before del s = s
purge_queue failed_after del s = record s { queue = [] }

-- Without a pipeline nothing is purged, and that is a success.
unfoldable pub purge_tailer_queue : PurgeAnswers → CycleState → CycleState
unfolding purge_queue
purge_tailer_queue p s = if p.has_pipeline then purge_queue p.purge p.del s else s

-- `ic.Pause()` and `ic.Resume()`.
abbrev pub with_pause : CycleAnswers → CycleState → CycleState
with_pause a s = record s { ingestion = pause a.pause_set a.pause_sent s.replica s.ingestion }

abbrev pub with_resume : CycleAnswers → CycleState → CycleState
with_resume a s = record s { ingestion = resume a.resume_set a.resume_sent s.replica s.ingestion }

abbrev pub with_disk : Disk → CycleState → CycleState
with_disk d s = record s { disk = d }

abbrev pub started_over : ℕ → Disk → CycleState → CycleState
started_over now d s = record s { disk = d; file_pos = 0; saved = some 0; last_compaction = now }

abbrev pub after_compact : CycleAnswers → CycleState → Compacted × Disk → CycleEnd × CycleState
after_compact a s (compact_error e, d) = (not_compacted, with_resume a (with_disk d s))
after_compact a s (same_file, d) = (compacted, with_resume a (started_over a.finished d s))
after_compact a s (new_file, d) = (compacted, with_resume a (started_over a.finished d s))

-- From `ic.Pause()` on.
unfoldable pub compaction : CycleAnswers → Bool → ℕ → CycleState → CycleEnd × CycleState
compaction a asks flushed s =
    let purged = purge_tailer_queue a.purged (with_pause a s) in
    if a.drained
    then after_compact a purged (compact_file a.compact asks flushed s.disk)
    else (not_drained, with_resume a (with_pause a s))

unfoldable pub compact_cycle : CycleAnswers → Bool → CycleState → CycleEnd × CycleState
compact_cycle a asks s =
    let flushed = flushed_pos_of a.flushed s in
    let done = compaction a asks flushed s in
    if should_compact a s && enough_flushed a.file_size flushed then done else (not_due, s)
