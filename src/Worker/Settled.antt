-- ===== src/Worker/Settled.antt =====
-- backend/tailer/worker.go: every delivery that a worker receives is settled once or waits in the
-- batch.
use logmara.Prelude.{
  ℕ, ◌+◌, ◌-◌, ◌==◌, ◌≡◌, leb, ltb, refl, ap, ◌∙◌, Bool, ◌&&◌, ◌||◌, Option, none, some, List, [],
  ◌∷◌, ◌++◌, map, length, if◌then◌else◌, if_holds, is_nil, arith,
}
use logmara.Parser.Cache.{RegexpLib}
use logmara.Parser.Engine.{Parser}
use logmara.Flush.Tracker.{QueueEntry}
use logmara.Worker.Row.{
  LogRow, Envelope, whole, corrupt, JsonLib, sanitize_row, fix_misparse, parse_row,
}
use logmara.Worker.Loop.{
  Delivery, Effect, ack, nack, reported, inserted, insert_failed, evaluated, malformed_seen,
  batch_size, batch_interval, Answers, Event, pause_check, channel_closed, delivered, Reading,
  discard, row, malformed, read_line, Worker, emit, nack_batch, on_pause_check, on_closed,
  on_corrupt, skip_line, flush, append_row, flush_if_due, store_row, on_reading, on_envelope,
  on_delivery, worker_step, run_worker,
}

abbrev pub one : ℕ → ℕ → ℕ
one t tag = if t == tag then 1 else 0

-- How often a tag is acked or nacked.
abbrev pub settled : ℕ → List Effect → ℕ
settled t [] = 0
settled t (ack tag ∷ es) = one t tag + settled t es
settled t (nack tag ∷ es) = one t tag + settled t es
settled t (reported qs ∷ es) = settled t es
settled t (inserted rs ∷ es) = settled t es
settled t (insert_failed rs ∷ es) = settled t es
settled t (evaluated rs ∷ es) = settled t es
settled t (malformed_seen s ∷ es) = settled t es

abbrev pub waiting : ℕ → List Delivery → ℕ
waiting t [] = 0
waiting t (d ∷ ds) = one t d.tag + waiting t ds

abbrev pub received : ℕ → List Event → ℕ
received t [] = 0
received t (pause_check p ∷ es) = received t es
received t (channel_closed now ∷ es) = received t es
received t (delivered d a ∷ es) = one t d.tag + received t es

settled-append : (t : ℕ) (es fs : List Effect) → settled t (es ++ fs) ≡ settled t es + settled t fs
settled-append t [] fs = omega arith
settled-append t (ack tag ∷ es) fs = omega (arith, settled-append t es fs)
settled-append t (nack tag ∷ es) fs = omega (arith, settled-append t es fs)
settled-append t (reported qs ∷ es) fs = settled-append t es fs
settled-append t (inserted rs ∷ es) fs = settled-append t es fs
settled-append t (insert_failed rs ∷ es) fs = settled-append t es fs
settled-append t (evaluated rs ∷ es) fs = settled-append t es fs
settled-append t (malformed_seen s ∷ es) fs = settled-append t es fs

settled-acks : (t : ℕ) (ds : List Delivery) → settled t (map (λ d. ack d.tag) ds) ≡ waiting t ds
settled-acks t [] = refl
settled-acks t (d ∷ ds) = omega (arith, settled-acks t ds)

settled-nacks : (t : ℕ) (ds : List Delivery) → settled t (map (λ d. nack d.tag) ds) ≡ waiting t ds
settled-nacks t [] = refl
settled-nacks t (d ∷ ds) = omega (arith, settled-nacks t ds)

waiting-append :
    (t : ℕ) (ds es : List Delivery) → waiting t (ds ++ es) ≡ waiting t ds + waiting t es
waiting-append t [] es = omega arith
waiting-append t (d ∷ ds) es = omega (arith, waiting-append t ds es)

module _ (lib : RegexpLib) (json : JsonLib) (parsers : List Parser) (t : ℕ) where
  abbrev pub Host : Type 0
  Host = Worker lib json parsers

  -- What is settled and what waits.
  abbrev pub total : Host → ℕ
  total w = settled t w.effects + waiting t w.batch_deliveries

  nacked : (w : Host) → settled t (nack_batch lib json parsers w).effects ≡ total w
  nacked w =
      settled-append t w.effects (map (λ d. nack d.tag) w.batch_deliveries)
      ∙ ap (λ n. settled t w.effects + n) (settled-nacks t w.batch_deliveries)

  on_pause_check-total :
      (p : Bool) (w : Host) → total (on_pause_check lib json parsers p w) ≡ total w
  unfolding on_pause_check
  on_pause_check-total p w =
      if_holds (λ (v : Host). total v ≡ total w) (p && ltb 0 (length w.batch_deliveries))
        (omega (arith, nacked w)) refl

  on_closed-total : (now : ℕ) (w : Host) → total (on_closed lib json parsers now w) ≡ total w
  unfolding on_closed
  on_closed-total now w = omega (arith, nacked w)

  on_corrupt-total :
      (d : Delivery) (partial : Option (ℕ × ℕ)) (w : Host)
      → total (on_corrupt lib json parsers d partial w) ≡ total w + one t d.tag
  unfolding on_corrupt
  on_corrupt-total d none w = omega (arith, settled-append t w.effects (ack d.tag ∷ []))
  on_corrupt-total d (some (n, p)) w =
      if_holds
        (λ (es : List Effect).
          settled t (w.effects ++ (es ++ ack d.tag ∷ [])) + waiting t w.batch_deliveries
          ≡ total w + one t d.tag)
        (ltb 0 n)
        (omega (
          arith,
          settled-append t w.effects
              (reported (record { number = n; next_pos = p; line = [] } ∷ []) ∷ ack d.tag ∷ []),
        ))
        (omega (arith, settled-append t w.effects (ack d.tag ∷ [])))

  skip_line-total :
      (d : Delivery) (qe : QueueEntry) (w : Host)
      → total (skip_line lib json parsers d qe w) ≡ total w + one t d.tag
  unfolding skip_line
  skip_line-total d qe w =
      omega (arith, settled-append t w.effects (reported (qe ∷ []) ∷ ack d.tag ∷ []))

  flush-total : (a : Answers) (w : Host) → total (flush lib json parsers a w) ≡ total w
  unfolding flush
  flush-total a w =
      let acks = map (λ d. ack d.tag) w.batch_deliveries in
      if_holds (λ (v : Host). total v ≡ total w) a.paused_at_flush (omega (arith, nacked w))
        (if_holds (λ (v : Host). total v ≡ total w) a.insert_ok
          (omega (
            arith,
            settled-append t w.effects
                (inserted w.entries ∷ evaluated w.entries ∷ reported w.queue_entries ∷ acks),
            settled-acks t w.batch_deliveries,
          ))
          (omega (
            arith,
            nacked (emit lib json parsers (insert_failed w.entries ∷ []) w),
            settled-append t w.effects (insert_failed w.entries ∷ []),
          )))

  flush_if_due-total :
      (a : Answers) (w : Host) → total (flush_if_due lib json parsers a w) ≡ total w
  unfolding flush_if_due
  flush_if_due-total a w =
      if_holds (λ (v : Host). total v ≡ total w)
        (leb batch_size (length w.entries) || leb batch_interval (a.now - w.last_flush))
        (flush-total a w) refl

  append_row-total :
      (d : Delivery) (qe : QueueEntry) (r : LogRow) (w : Host)
      → total (append_row lib json parsers d qe r w) ≡ total w + one t d.tag
  unfolding append_row
  append_row-total d qe r w = omega (arith, waiting-append t w.batch_deliveries (d ∷ []))

  store_row-total :
      (d : Delivery) (a : Answers) (qe : QueueEntry) (r : LogRow) (w : Host)
      → total (store_row lib json parsers d a qe r w) ≡ total w + one t d.tag
  unfolding store_row
  store_row-total d a qe r w =
      let clean = sanitize_row r in
      let p = parse_row lib parsers (fix_misparse clean) w.cache in
      let w1 = record w { cache = p.1 } in
      if_holds (λ (v : Host). total v ≡ total w + one t d.tag) (is_nil clean.hostname)
        (skip_line-total d qe w)
        (flush_if_due-total a (append_row lib json parsers d qe p.0 w1)
          ∙ append_row-total d qe p.0 w1)

  on_reading-total :
      (d : Delivery) (a : Answers) (qe : QueueEntry) (r : Reading) (w : Host)
      → total (on_reading lib json parsers d a qe r w) ≡ total w + one t d.tag
  on_reading-total d a qe discard w = skip_line-total d qe w
  on_reading-total d a qe (row r) w = store_row-total d a qe r w
  on_reading-total d a qe (malformed r snippet) w =
      let w1 = record (emit lib json parsers (malformed_seen snippet ∷ []) w) {
        parse_errors = w.parse_errors + 1;
      } in
      omega (
        arith,
        store_row-total d a qe r w1,
        settled-append t w.effects (malformed_seen snippet ∷ []),
      )

  on_envelope-total :
      (d : Delivery) (a : Answers) (e : Envelope) (w : Host)
      → total (on_envelope lib json parsers d a e w) ≡ total w + one t d.tag
  on_envelope-total d a (corrupt partial) w = on_corrupt-total d partial w
  on_envelope-total d a (whole qe) w = on_reading-total d a qe (read_line json a.now_text qe.line) w

  on_delivery-total :
      (d : Delivery) (a : Answers) (w : Host)
      → total (on_delivery lib json parsers d a w) ≡ total w + one t d.tag
  unfolding on_delivery
  on_delivery-total d a w =
      if_holds (λ (v : Host). total v ≡ total w + one t d.tag) a.paused
        (omega (arith, settled-append t w.effects (nack d.tag ∷ [])))
        (on_envelope-total d a (json.envelope d.body) w)

  -- After any events, the number of times that a tag is acked or nacked and the number of times that
  -- it waits in the batch grew together by the number of deliveries with the tag: a worker settles
  -- each delivery once, or has it in the batch.
  pub run_worker-total :
      (es : List Event) (w : Host)
      → settled t (run_worker lib json parsers es w).effects
          + waiting t (run_worker lib json parsers es w).batch_deliveries
        ≡ settled t w.effects + waiting t w.batch_deliveries + received t es
  unfolding run_worker worker_step
  run_worker-total [] w = omega arith
  run_worker-total (pause_check p ∷ es) w =
      run_worker-total es (on_pause_check lib json parsers p w)
      ∙ ap (λ n. n + received t es) (on_pause_check-total p w)
  run_worker-total (channel_closed now ∷ es) w =
      run_worker-total es (on_closed lib json parsers now w)
      ∙ ap (λ n. n + received t es) (on_closed-total now w)
  run_worker-total (delivered d a ∷ es) w =
      omega
        (arith, run_worker-total es (on_delivery lib json parsers d a w), on_delivery-total d a w)
