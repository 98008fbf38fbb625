-- ===== src/Alerts/Silence.antt =====
-- backend/alertengine/silence.go: `CheckDeviceSilence`, with the table of backend/db/silence_state.go.
-- Times are nanoseconds. `states` is the table as it was read at the start of the check.
use Prim.Native.String.{◌++◌ as text_append}
use logmara.Prelude.{
  ℕ, ◌-◌, ◌*◌, Bool, false, not, ◌&&◌, List, [], ◌∷◌, ◌++◌, Option, none, some, ltb, leb, ◌==◌,
  if◌then◌else◌, String, Assoc, lookup, insert, remove,
}
use logmara.Alerts.Conditions.{Rule, match_device}
use logmara.Alerts.Counter.{Store, should_fire}
use logmara.Alerts.Batch.{minute, single_ask}

-- The severities of a silence, `silenceSeverityRank` being their order.
pub data Level : Type 0 where
  warning error critical : Level

abbrev pub level_rank : Level → ℕ
level_rank warning = 0
level_rank error = 1
level_rank critical = 2

unfoldable pub severity_for_silence : ℕ → ℕ → Level
severity_for_silence silent_for threshold =
    if leb (4 * threshold) silent_for
    then critical
    else if leb (2 * threshold) silent_for
    then error
    else warning

pub record Device : Type 0 where
  pub hostname : String
  pub from_host_ip : String
  pub last_seen : ℕ

pub record SilenceState : Type 0 where
  pub silent_since : ℕ
  pub last_severity : Level

pub data SilenceNotice : Type 0 where
  device_silent : Rule → Device → Level → SilenceNotice
  back_online : Rule → Device → ℕ → SilenceNotice

-- `marked` has the rules that `MarkAlertFired` was called for.
pub record Watch : Type 0 where
  pub store : Store
  pub table : Assoc SilenceState
  pub marked : List String
  pub sent : List SilenceNotice

-- `fmt.Sprintf("%d:%s", rule.ID, dev.FromHostIP)`.
abbrev pub state_key : Rule → Device → String
state_key r d = text_append r.id (text_append ":" d.from_host_ip)

abbrev pub silence_threshold : Rule → ℕ
silence_threshold r = (if r.threshold == 0 then 15 else r.threshold) * minute

abbrev pub upserted : ℕ → Level → Option SilenceState → SilenceState
upserted since level none = record { silent_since = since; last_severity = level }
upserted since level (some s) = record s { last_severity = level }

-- `UpsertDeviceSilenceState`: on a conflict only the severity is updated.
unfoldable pub upsert : String → ℕ → Level → Assoc SilenceState → Assoc SilenceState
upsert key since level t = insert key (upserted since level (lookup key t)) t

unfoldable pub since_of : Device → Option SilenceState → ℕ
since_of d none = d.last_seen
since_of d (some s) = s.silent_since

unfoldable pub escalated : Level → Option SilenceState → Bool
escalated level none = false
escalated level (some s) = ltb (level_rank s.last_severity) (level_rank level)

-- Whether the database does the write of the table for a rule and a device: the code discards its
-- error.
abbrev pub Writes : Type 0
Writes = Rule → Device → Bool

-- The branch of a device that logs again: the notice is sent whether or not the delete is done.
unfoldable pub on_online : Bool → Rule → Device → Option SilenceState → Watch → Watch
on_online written r d none w = w
on_online written r d (some s) w = record w {
  table = if written then remove (state_key r d) w.table else w.table;
  sent = w.sent ++ back_online r d s.silent_since ∷ [];
}

-- The branch of a device that is silent: the store is asked also where an escalation fires
-- anyway, and the notice is sent whether or not the upsert is done.
unfoldable pub on_silent : Bool → Rule → Device → ℕ → Option SilenceState → Watch → Watch
on_silent written r d now had w =
    let since = since_of d had in
    let level = severity_for_silence (now - since) (silence_threshold r) in
    let (store_fire, s) = should_fire (state_key r d) (single_ask r) now w.store in
    if not (escalated level had) && not store_fire then record w { store = s } else record {
      store = s;
      table = if written then upsert (state_key r d) since level w.table else w.table;
      marked = w.marked ++ r.id ∷ [];
      sent = w.sent ++ device_silent r d level ∷ [];
    }

unfoldable pub check_device : Bool → Rule → ℕ → Assoc SilenceState → Device → Watch → Watch
check_device written r now states d w =
    if not (match_device r.device_ips d.from_host_ip)
    then w
    else if ltb (now - d.last_seen) (silence_threshold r)
    then on_online written r d (lookup (state_key r d) states) w
    else on_silent written r d now (lookup (state_key r d) states) w

unfoldable pub check_devices : Writes → Rule → ℕ → Assoc SilenceState → List Device → Watch → Watch
check_devices writes r now states [] w = w
check_devices writes r now states (d ∷ ds) w =
    check_devices writes r now states ds (check_device (writes r d) r now states d w)

unfoldable pub check_rules :
    Writes → List Rule → ℕ → Assoc SilenceState → List Device → Watch → Watch
check_rules writes [] now states ds w = w
check_rules writes (r ∷ rs) now states ds w =
    check_rules writes rs now states ds (check_devices writes r now states ds w)

-- The whole check; `read` tells whether the table could be read (if not, no state is known).
unfoldable pub check_device_silence :
    Bool → Bool → Writes → List Rule → ℕ → List Device → Watch → Watch
check_device_silence enabled read writes rs now ds w =
    if enabled then check_rules writes rs now (if read then w.table else []) ds w else w
