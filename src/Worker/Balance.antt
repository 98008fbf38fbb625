-- ===== src/Worker/Balance.antt =====
-- backend/tailer/worker.go: the three slices of a batch and the counter `pending` go together.
use logmara.Prelude.{
  ℕ, ◌-◌, ◌≡◌, ◌<◌, leb, ltb, refl, sym, ap, ◌∙◌, Bool, false, ◌&&◌, ◌||◌, List, [], ◌∷◌, length,
  length-append, if_holds, if_splits, is_nil, arith,
}
use logmara.Parser.Cache.{RegexpLib}
use logmara.Parser.Engine.{Parser}
use logmara.Flush.Tracker.{QueueEntry}
use logmara.Worker.Row.{
  LogRow, Envelope, whole, corrupt, JsonLib, sanitize_row, fix_misparse, parse_row,
}
use logmara.Worker.Loop.{
  Delivery, batch_size, batch_interval, Answers, Event, pause_check, channel_closed, delivered,
  Reading, discard, row, malformed, read_line, Worker, on_pause_check, on_closed, on_corrupt,
  skip_line, flush, append_row, flush_if_due, store_row, on_reading, on_envelope, on_delivery,
  worker_step, run_worker,
}

not_due : (n p : ℕ) (late : Bool) → (leb batch_size n || late) ≡ false → n ≡ p → p < batch_size
not_due n p late e same_number = ground arith

module _ (lib : RegexpLib) (json : JsonLib) (parsers : List Parser) where
  abbrev pub Host : Type 0
  Host = Worker lib json parsers

  -- One row, one queue entry and one delivery for each one pending, and less than a batch.
  pub record IsBalanced (w : Host) : Type 0 where
    pub rows : length w.entries ≡ w.pending
    pub reports : length w.queue_entries ≡ w.pending
    pub tags : length w.batch_deliveries ≡ w.pending
    pub short : w.pending < batch_size

  cleared :
      (w : Host)
      → w.entries ≡ []
      → w.queue_entries ≡ []
      → w.batch_deliveries ≡ []
      → w.pending ≡ 0
      → IsBalanced w
  cleared w e q b p = record {
    rows = ap length e ∙ sym p;
    reports = ap length q ∙ sym p;
    tags = ap length b ∙ sym p;
    short = omega arith;
  }

  -- A change elsewhere.
  same :
      (w v : Host)
      → v.entries ≡ w.entries
      → v.queue_entries ≡ w.queue_entries
      → v.batch_deliveries ≡ w.batch_deliveries
      → v.pending ≡ w.pending
      → IsBalanced w
      → IsBalanced v
  same w v e q b p h =
      let short = h.short in
      record {
        rows = ap length e ∙ h.rows ∙ sym p;
        reports = ap length q ∙ h.reports ∙ sym p;
        tags = ap length b ∙ h.tags ∙ sym p;
        short = omega arith;
      }

  on_pause_check-IsBalanced :
      (p : Bool) (w : Host) → IsBalanced w → IsBalanced (on_pause_check lib json parsers p w)
  unfolding on_pause_check
  on_pause_check-IsBalanced p w h =
      if_holds IsBalanced (p && ltb 0 (length w.batch_deliveries)) (cleared _ refl refl refl refl) h

  on_closed-IsBalanced : (now : ℕ) (w : Host) → IsBalanced (on_closed lib json parsers now w)
  unfolding on_closed
  on_closed-IsBalanced now w = cleared _ refl refl refl refl

  flush-IsBalanced : (a : Answers) (w : Host) → IsBalanced (flush lib json parsers a w)
  unfolding flush
  flush-IsBalanced a w = if_holds IsBalanced a.paused_at_flush (cleared _ refl refl refl refl) (
      if_holds IsBalanced a.insert_ok (cleared _ refl refl refl refl)
        (cleared _ refl refl refl refl))

  -- The same without the bound, of a worker that has just appended a row.
  pub record IsAligned (w : Host) : Type 0 where
    pub rows : length w.entries ≡ w.pending
    pub reports : length w.queue_entries ≡ w.pending
    pub tags : length w.batch_deliveries ≡ w.pending

  append_row-IsAligned :
      (d : Delivery) (qe : QueueEntry) (r : LogRow) (w : Host)
      → IsBalanced w
      → IsAligned (append_row lib json parsers d qe r w)
  unfolding append_row
  append_row-IsAligned d qe r w h =
      let rows = h.rows in
      let reports = h.reports in
      let tags = h.tags in
      record {
        rows = refl;
        reports =
            omega
              (arith, length-append w.queue_entries (qe ∷ []), length-append w.entries (r ∷ []));
        tags =
            omega
              (arith, length-append w.batch_deliveries (d ∷ []), length-append w.entries (r ∷ []));
      }

  flush_if_due-IsBalanced :
      (a : Answers) (w : Host) → IsAligned w → IsBalanced (flush_if_due lib json parsers a w)
  unfolding flush_if_due
  flush_if_due-IsBalanced a w h =
      let rows = h.rows in
      if_splits IsBalanced
        (leb batch_size (length w.entries) || leb batch_interval (a.now - w.last_flush))
        (λ e. flush-IsBalanced a w)
        (λ e. record {
          rows = h.rows;
          reports = h.reports;
          tags = h.tags;
          short = not_due (length w.entries) w.pending _ e rows;
        })

  store_row-IsBalanced :
      (d : Delivery) (a : Answers) (qe : QueueEntry) (r : LogRow) (w : Host)
      → IsBalanced w
      → IsBalanced (store_row lib json parsers d a qe r w)
  unfolding store_row skip_line
  store_row-IsBalanced d a qe r w h =
      let clean = sanitize_row r in
      let p = parse_row lib parsers (fix_misparse clean) w.cache in
      let w1 = record w { cache = p.1 } in
      if_holds IsBalanced (is_nil clean.hostname) (same w _ refl refl refl refl h) (
        flush_if_due-IsBalanced a (append_row lib json parsers d qe p.0 w1)
          (append_row-IsAligned d qe p.0 w1 (same w w1 refl refl refl refl h)))

  on_reading-IsBalanced :
      (d : Delivery) (a : Answers) (qe : QueueEntry) (r : Reading) (w : Host)
      → IsBalanced w
      → IsBalanced (on_reading lib json parsers d a qe r w)
  unfolding skip_line
  on_reading-IsBalanced d a qe discard w h = same w _ refl refl refl refl h
  on_reading-IsBalanced d a qe (row r) w h = store_row-IsBalanced d a qe r w h
  on_reading-IsBalanced d a qe (malformed r snippet) w h =
      store_row-IsBalanced d a qe r _ (same w _ refl refl refl refl h)

  on_envelope-IsBalanced :
      (d : Delivery) (a : Answers) (e : Envelope) (w : Host)
      → IsBalanced w
      → IsBalanced (on_envelope lib json parsers d a e w)
  unfolding on_corrupt
  on_envelope-IsBalanced d a (corrupt partial) w h = same w _ refl refl refl refl h
  on_envelope-IsBalanced d a (whole qe) w h =
      on_reading-IsBalanced d a qe (read_line json a.now_text qe.line) w h

  on_delivery-IsBalanced :
      (d : Delivery) (a : Answers) (w : Host)
      → IsBalanced w
      → IsBalanced (on_delivery lib json parsers d a w)
  unfolding on_delivery
  on_delivery-IsBalanced d a w h =
      if_holds IsBalanced a.paused (same w _ refl refl refl refl h)
        (on_envelope-IsBalanced d a (json.envelope d.body) w h)

  -- Every run keeps the following: `pending` is the number of buffered rows, of their queue entries
  -- and of their deliveries, and is below the size of a batch.
  pub run_worker-IsBalanced :
      (es : List Event) (w : Host) → IsBalanced w → IsBalanced (run_worker lib json parsers es w)
  unfolding run_worker worker_step
  run_worker-IsBalanced [] w h = h
  run_worker-IsBalanced (pause_check p ∷ es) w h =
      run_worker-IsBalanced es _ (on_pause_check-IsBalanced p w h)
  run_worker-IsBalanced (channel_closed now ∷ es) w h =
      run_worker-IsBalanced es _ (on_closed-IsBalanced now w)
  run_worker-IsBalanced (delivered d a ∷ es) w h =
      run_worker-IsBalanced es _ (on_delivery-IsBalanced d a w h)
