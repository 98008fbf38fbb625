-- ===== src/Flush/Tracker.antt =====
-- backend/sharedstate/flushtracker.go: the script `reportFlushedLua` and the methods of
-- `FlushTracker`. The script's loop runs on fuel; it stops at the first number that is absent.
use logmara.Prelude.{
  ℕ, zero, suc, ◌+◌, Option, none, some, Bool, if◌then◌else◌, List, [], ◌∷◌, Text, Reply, answered,
  failed_before, failed_after,
}
use logmara.Flush.Hash.{flushed_seq, flushed_pos, seq, RedisHash}

pub record QueueEntry : Type 0 where
  pub number : ℕ
  pub next_pos : ℕ
  pub line : Text

abbrev pub or_zero : Option ℕ → ℕ
or_zero none = 0
or_zero (some n) = n

-- `break` on an absent value, else the next round with the value.
abbrev pub or_next : {A : Type 0} → A → (ℕ → A) → Option ℕ → A
or_next stop next none = stop
or_next stop next (some q) = next q

module _ (redis : RedisHash) where
  open redis use {Hash, empty, hget, hset, hsetnx}

  -- `HSETNX` for each reported pair.
  unfoldable pub store_reported : List QueueEntry → Hash → Hash
  store_reported [] h = h
  store_reported (e ∷ es) h = store_reported es (hsetnx (seq e.number) e.next_pos h)

  -- The loop that advances the two values, from the values it has; `none` if the fuel runs out.
  unfoldable pub advance : ℕ → Hash → ℕ → ℕ → Option (ℕ × ℕ)
  advance zero h s p = none
  advance (suc fuel) h s p = or_next (some (s, p)) (advance fuel h (suc s)) (hget (seq (suc s)) h)

  abbrev pub persist : Hash → ℕ × ℕ → (ℕ × ℕ) × Hash
  persist h (s, p) = ((s, p), hset flushed_pos p (hset flushed_seq s h))

  abbrev pub persist? : Hash → Option (ℕ × ℕ) → Option ((ℕ × ℕ) × Hash)
  persist? h none = none
  persist? h (some r) = some (persist h r)

  -- The whole script.
  unfoldable pub script : ℕ → List QueueEntry → Hash → Option ((ℕ × ℕ) × Hash)
  script fuel es h =
      let h' = store_reported es h in
      persist? h' (advance fuel h' (or_zero (hget flushed_seq h)) (or_zero (hget flushed_pos h)))

  -- `GetFlushedPos`, where Redis answers.
  unfoldable pub get_flushed_pos : Hash → ℕ × ℕ
  get_flushed_pos h = (or_zero (hget flushed_seq h), or_zero (hget flushed_pos h))

  -- `ReportFlushed`, where Redis answers: nothing to report only reads.
  unfoldable pub report_flushed : ℕ → List QueueEntry → Hash → Option ((ℕ × ℕ) × Hash)
  report_flushed fuel [] h = some (get_flushed_pos h, h)
  report_flushed fuel (e ∷ es) h = script fuel (e ∷ es) h

  -- `GetFlushedPos` with its error, which reads as zeros.
  unfoldable pub get_flushed_pos_reply : Reply → Hash → ℕ × ℕ
  unfolding get_flushed_pos
  get_flushed_pos_reply answered h = get_flushed_pos h
  get_flushed_pos_reply failed_before h = (0, 0)
  get_flushed_pos_reply failed_after h = (0, 0)

  -- What the caller sees: the two values, or an error.
  abbrev pub seen : Reply → Hash → Option ((ℕ × ℕ) × Hash) → Option (Option (ℕ × ℕ) × Hash)
  seen r before none = none
  seen answered before (some (v, h)) = some (some v, h)
  seen failed_before before (some (v, h)) = some (none, before)
  seen failed_after before (some (v, h)) = some (none, h)

  -- `ReportFlushed` with its error, which is one of the script only.
  unfoldable pub report_flushed_reply :
      Reply → ℕ → List QueueEntry → Hash → Option (Option (ℕ × ℕ) × Hash)
  unfolding script get_flushed_pos_reply
  report_flushed_reply r fuel [] h = some (some (get_flushed_pos_reply r h), h)
  report_flushed_reply r fuel (e ∷ es) h = seen r h (script fuel (e ∷ es) h)

  -- `NewFlushTracker`: the counter goes on from the stored number, if there is a client.
  unfoldable pub new_flush_tracker : Bool → Reply → Hash → ℕ
  new_flush_tracker has_client r h = if has_client then (get_flushed_pos_reply r h).0 else 0

  -- `Reset`: the hash and the counter; the error of `DEL` is ignored.
  unfoldable pub reset : Reply → Hash → ℕ → Hash × ℕ
  reset answered h counter = (empty, 0)
  reset failed_before h counter = (h, 0)
  reset failed_after h counter = (empty, 0)

-- `NextSeq`: the number, and the counter after it.
unfoldable pub next_seq : ℕ → ℕ × ℕ
next_seq counter = (counter + 1, counter + 1)
