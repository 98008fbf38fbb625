-- ===== src/Control/Flag.antt =====
-- backend/control/ingestion.go: both controllers. The Redis controllers of all replicas are one
-- state: the key, the flag that each replica caches, and the messages that it has not handled yet.
use logmara.Prelude.{
  ℕ, ◌==◌, String, str_eq, Bool, true, false, Option, none, some, List, [], ◌∷◌, ◌++◌,
  if◌then◌else◌, Reply, answered, failed_before, failed_after,
}

-- `localController`.
pub record LocalController : Type 0 where
  pub paused : Bool

unfoldable pub new_local_controller : LocalController
new_local_controller = record { paused = false }

unfoldable pub local_is_paused : LocalController → Bool
local_is_paused c = c.paused

unfoldable pub local_pause : LocalController → LocalController
local_pause c = record c { paused = true }

unfoldable pub local_resume : LocalController → LocalController
local_resume c = record c { paused = false }

-- The key `ingestion:paused`, and for each replica `cached` and what its subscriber will get.
pub record Replicas : Type 0 where
  pub stored : Option String
  pub cached : ℕ → Bool
  pub messages : ℕ → List String

abbrev pub at_replica : {A : Type 0} → ℕ → A → (ℕ → A) → ℕ → A
at_replica i new table j = if i == j then new else table j

-- What a stored value or a payload says: only "1" is paused.
abbrev pub says_paused : Option String → Bool
says_paused none = false
says_paused (some v) = str_eq v "1"

-- `readPaused`: every error reads as not paused.
unfoldable pub read_paused : Reply → Replicas → Bool
read_paused answered c = says_paused c.stored
read_paused failed_before c = false
read_paused failed_after c = false

abbrev pub value_of : Bool → String
value_of paused = if paused then "1" else "0"

-- `Publish` puts the payload in front of every subscriber.
abbrev pub broadcast : String → Replicas → Replicas
broadcast payload c = record c { messages = λ j. c.messages j ++ payload ∷ [] }

unfoldable pub publish : Reply → String → Replicas → Replicas
publish answered payload c = broadcast payload c
publish failed_before payload c = c
publish failed_after payload c = broadcast payload c

abbrev pub cache : ℕ → Bool → Replicas → Replicas
cache i b c = record c { cached = at_replica i b c.cached }

-- `setPaused`: the cache, the key, and the message if the key was written without an error.
unfoldable pub set_paused : Reply → Reply → ℕ → Bool → Replicas → Replicas
set_paused answered sent i p c =
    publish sent (value_of p) (record (cache i p c) { stored = some (value_of p) })
set_paused failed_before sent i p c = cache i p c
set_paused failed_after sent i p c = record (cache i p c) { stored = some (value_of p) }

unfoldable pub pause : Reply → Reply → ℕ → Replicas → Replicas
pause r sent i c = set_paused r sent i true c

unfoldable pub resume : Reply → Reply → ℕ → Replicas → Replicas
resume r sent i c = set_paused r sent i false c

abbrev pub handle : ℕ → List String → Replicas → Replicas
handle i [] c = c
handle i (payload ∷ rest) c = record (cache i (str_eq payload "1") c) {
  messages = at_replica i rest c.messages;
}

-- The subscriber of a replica handles its next message.
unfoldable pub on_message : ℕ → Replicas → Replicas
on_message i c = handle i (c.messages i) c

-- The tick of the refresh loop.
unfoldable pub on_refresh : Reply → ℕ → Replicas → Replicas
on_refresh r i c = cache i (read_paused r c) c

-- `newRedisController`: the flag as read, and a subscription that has no messages yet.
unfoldable pub join_replica : Reply → ℕ → Replicas → Replicas
join_replica r i c = record (cache i (read_paused r c) c) { messages = at_replica i [] c.messages }

unfoldable pub is_paused : ℕ → Replicas → Bool
is_paused i c = c.cached i
