-- ===== src/Alerts/Escalation.antt =====
-- backend/alertengine/silence.go: what a check of one device does, and how its severity moves.
use logmara.Prelude.{
  ℕ, ◌-◌, ◌≤◌, ◌≡◌, ◌∙◌, ap, eq_refl, refl, sym, subst, eq_iff, Bool, true, false, not, ◌&&◌, ◌||◌,
  List, [], ◌∷◌, ◌++◌, Option, none, some, ltb, if◌then◌else◌, String, str_eq, Assoc, lookup,
  lookup-insert, lookup-remove, append-nil, arith, Bool-cases, inl, inr,
}
use logmara.Alerts.Conditions.{Rule, match_device}
use logmara.Alerts.Counter.{should_fire}
use logmara.Alerts.Batch.{single_ask}
use logmara.Alerts.Silence.{
  Level, level_rank, severity_for_silence, Device, SilenceState, SilenceNotice, device_silent,
  back_online, Watch, state_key, silence_threshold, upserted, upsert, since_of, escalated,
  on_online, on_silent, check_device,
}

-- The severity is critical from four thresholds of silence on, an error from two, else a warning;
-- it never falls as the silence grows.
pub severity_for_silence_mono :
    (a b t : ℕ)
    → a ≤ b
    → level_rank (severity_for_silence a t) ≤ level_rank (severity_for_silence b t)
unfolding severity_for_silence
severity_for_silence_mono a b t h = ground arith

module _ (r : Rule) (now : ℕ) (states : Assoc SilenceState) (d : Device) where
  abbrev pub state : Option SilenceState
  state = lookup (state_key r d) states

  abbrev pub level : Level
  level = severity_for_silence (now - since_of d state) (silence_threshold r)

  abbrev pub is_online : Bool
  is_online = ltb (now - d.last_seen) (silence_threshold r)

  abbrev pub online_notices : Option SilenceState → List SilenceNotice
  online_notices none = []
  online_notices (some s) = back_online r d s.silent_since ∷ []

  -- What a check of the device sends: nothing if the rule is not about it; if it logs again, one
  -- notice exactly when it was known to be silent; if it is silent, one notice exactly when its
  -- severity rose or the store lets the rule fire for it.
  abbrev pub notices_for : Watch → List SilenceNotice
  notices_for w =
      if not (match_device r.device_ips d.from_host_ip)
      then []
      else if is_online
      then online_notices state
      else (if escalated level state || (should_fire (state_key r d) (single_ask r) now w.store).0
          then device_silent r d level ∷ []
          else [])

  on_online-sent :
      (written : Bool) (o : Option SilenceState) (w : Watch)
      → (on_online written r d o w).sent ≡ w.sent ++ online_notices o
  unfolding on_online
  on_online-sent written none w = sym (append-nil w.sent)
  on_online-sent written (some s) w = refl

  -- For every rule, device, time and state, and whether or not the table is written, a check of the
  -- device sends what `notices_for` says.
  pub check_device-sent :
      (written : Bool) (w : Watch)
      → (check_device written r now states d w).sent ≡ w.sent ++ notices_for w
  unfolding check_device on_silent
  check_device-sent written w = ground (arith, on_online-sent written state w, append-nil w.sent)

  -- The table's entry for the device after a check that read it, where the write is done.
  abbrev pub state_after : Watch → Option SilenceState
  state_after w =
      if not (match_device r.device_ips d.from_host_ip)
      then state
      else if is_online
      then none
      else (if escalated level state || (should_fire (state_key r d) (single_ask r) now w.store).0
          then some (record { silent_since = since_of d state; last_severity = level })
          else state)

  same_entry :
      (k : String) (w : Watch) (o : Option SilenceState)
      → lookup (state_key r d) w.table ≡ o
      → lookup k w.table ≡ (if str_eq (state_key r d) k then o else lookup k w.table)
  same_entry k w o e = elim (Bool-cases (str_eq (state_key r d) k)) [
    | inl same ↦ rw same (subst (λ j. lookup j w.table ≡ o) ((eq_iff _ _).0 same) e)
    | inr other ↦ rw other
  ]

  on_online-table :
      (written : Bool) (k : String) (o : Option SilenceState) (w : Watch)
      → lookup (state_key r d) w.table ≡ o
      → lookup k (on_online written r d o w).table
        ≡ (if str_eq (state_key r d) k then (if written then none else o) else lookup k w.table)
  unfolding on_online
  on_online-table true k none w e = same_entry k w none e
  on_online-table false k none w e = same_entry k w none e
  on_online-table true k (some s) w e = lookup-remove (state_key r d) k w.table
  on_online-table false k (some s) w e = same_entry k w (some s) e

  upserted-since :
      (o : Option SilenceState) (l : Level)
      → upserted (since_of d o) l o ≡ record { silent_since = since_of d o; last_severity = l }
  unfolding since_of
  upserted-since none l = refl
  upserted-since (some s) l = refl

  on_silent-table :
      (written : Bool) (k : String) (w : Watch)
      → lookup (state_key r d) w.table ≡ state
      → lookup k (on_silent written r d now state w).table ≡ (
          if str_eq (state_key r d) k
          then (if escalated level state
                || (should_fire (state_key r d) (single_ask r) now w.store).0
              then (if written
                  then some (record { silent_since = since_of d state; last_severity = level })
                  else state)
              else state)
          else lookup k w.table)
  unfolding on_silent upsert
  on_silent-table written k w e = ground (
    arith,
    same_entry k w state e,
    lookup-insert (state_key r d) k (upserted (since_of d state) level state) w.table,
    upserted-since state level,
  )

  -- After a check that read the table, and if the write to it is done, the device's entry is gone if
  -- it logs again, holds the reported severity and the same beginning of the silence if a notice was
  -- sent, and is unchanged otherwise. If the write fails the entry is unchanged, though the notice is
  -- sent. The entries of other rules and devices are unchanged. In all cases the check sends
  -- one notice for a device that was known to be silent and logs again, one for a silent device whose
  -- severity rose or for which the store lets the rule fire, and else none.
  pub check_device-table :
      (written : Bool) (k : String) (w : Watch)
      → lookup (state_key r d) w.table ≡ state
      → (lookup k (check_device written r now states d w).table ≡ (
          if str_eq (state_key r d) k
          then (if written then state_after w else state)
          else lookup k w.table))
        × ((check_device written r now states d w).sent ≡ w.sent ++ notices_for w)
  unfolding check_device
  check_device-table written k w e = (
    ground (
      arith,
      same_entry k w state e,
      on_online-table written k state w e,
      on_silent-table written k w e,
    ),
    check_device-sent written w,
  )

  own_entry :
      (written : Bool) (w : Watch)
      → lookup (state_key r d) w.table ≡ state
      → lookup (state_key r d) (check_device written r now states d w).table
        ≡ (if written then state_after w else state)
  own_entry written w e =
      (check_device-table written (state_key r d) w e).0
      ∙ ap
          (λ b.
            if b
            then (if written then state_after w else state)
            else lookup (state_key r d) w.table)
          (eq_refl (state_key r d))

-- The recorded severity is no more than the silence was worth at the time.
abbrev pub IsRecorded : Rule → ℕ → Option SilenceState → Type 0
IsRecorded r now none = Unit
IsRecorded r now (some s) =
    level_rank s.last_severity
    ≤ level_rank (severity_for_silence (now - s.silent_since) (silence_threshold r))

abbrev pub NoLower : Option SilenceState → Option SilenceState → Type 0
NoLower (some s) (some t) =
    (s.silent_since ≡ t.silent_since) × (level_rank s.last_severity ≤ level_rank t.last_severity)
NoLower _ _ = Unit

IsRecorded-later :
    (r : Rule) (now later : ℕ) (o : Option SilenceState)
    → now ≤ later
    → IsRecorded r now o
    → IsRecorded r later o
IsRecorded-later r now later none h c = tt
IsRecorded-later r now later (some s) h c = omega (
  arith,
  severity_for_silence_mono (now - s.silent_since) (later - s.silent_since) (silence_threshold r),
)

-- With an entry, a matching rule, a device that is still silent, and the write done: the entry has
-- the severity of now.
abbrev pub CaughtUp : Rule → ℕ → Device → Option SilenceState → Option SilenceState → Type 0
CaughtUp r now d (some s) (some t) =
    level_rank t.last_severity
    ≡ level_rank (severity_for_silence (now - s.silent_since) (silence_threshold r))
CaughtUp r now d (some s) none = ⊥
CaughtUp r now d none o = Unit

after_cases :
    (r : Rule) (now : ℕ) (d : Device) (o : Option SilenceState) (written about online fired : Bool)
    → IsRecorded r now o
    → let l = severity_for_silence (now - since_of d o) (silence_threshold r) in
      let after =
        if written
        then (if not about
            then o
            else if online
            then none
            else (if escalated l o || fired
                then some (record { silent_since = since_of d o; last_severity = l })
                else o))
        else o in
      IsRecorded r now after
      × NoLower o after
      × (if written && about && not online then CaughtUp r now d o after else Unit)
unfolding since_of escalated
after_cases r now d none written about online fired c = ground arith
after_cases r now d (some s) written about online fired c = ground arith

-- From one check to a later one that read the table, whether or not the write is done: a device that
-- stays in the table keeps the beginning of its silence, and its recorded severity does not fall and
-- is no more than the silence is worth. If it had an entry and is still silent, and the write is
-- done, its entry has exactly the severity of now.
pub check_device-NoLower :
    (written : Bool) (r : Rule) (now later : ℕ) (states : Assoc SilenceState) (d : Device)
    (w : Watch)
    → now ≤ later
    → lookup (state_key r d) w.table ≡ state r later states d
    → IsRecorded r now (state r later states d)
    → (let after = lookup (state_key r d) (check_device written r later states d w).table in
        IsRecorded r later after
        × NoLower (state r later states d) after
        × (if written
              && match_device r.device_ips d.from_host_ip
              && not (is_online r later states d)
            then CaughtUp r later d (state r later states d) after
            else Unit))
check_device-NoLower written r now later states d w h e c =
    let had = state r later states d in
    let fired = (should_fire (state_key r d) (single_ask r) later w.store).0 in
    subst
      (λ after.
        IsRecorded r later after
        × NoLower had after
        × (if written
              && match_device r.device_ips d.from_host_ip
              && not (is_online r later states d)
            then CaughtUp r later d had after
            else Unit))
      (sym (own_entry r later states d written w e))
      (after_cases r later d had written (match_device r.device_ips d.from_host_ip)
        (is_online r later states d) fired (IsRecorded-later r now later had h c))
