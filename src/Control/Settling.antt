-- ===== src/Control/Settling.antt =====
-- backend/control/ingestion.go: the cached flags settle on the stored one.
use logmara.Prelude.{
  ℕ, ◌==◌, String, str_eq, ◌≡◌, refl, sym, ap, ◌∙◌, Bool, true, false, List, [], ◌∷◌, ◌++◌,
  Bool-cases, inl, inr, answered,
}
use logmara.Control.Flag.{
  Replicas, at_replica, says_paused, read_paused, value_of, publish, set_paused, pause, resume,
  handle, on_message, on_refresh, join_replica, is_paused,
}

-- What can happen, every call of Redis answered.
pub data Event : Type 0 where
  paused_by resumed_by message_at refresh_at joined : ℕ → Event

abbrev pub event : Event → Replicas → Replicas
event (paused_by i) c = pause answered answered i c
event (resumed_by i) c = resume answered answered i c
event (message_at i) c = on_message i c
event (refresh_at i) c = on_refresh answered i c
event (joined i) c = join_replica answered i c

abbrev pub events : List Event → Replicas → Replicas
events [] c = c
events (e ∷ es) c = events es (event e c)

-- The flag after the messages that are left.
abbrev pub after_messages : Bool → List String → Bool
after_messages b [] = b
after_messages b (m ∷ ms) = after_messages (str_eq m "1") ms

abbrev pub finally : ℕ → Replicas → Bool
finally j c = after_messages (c.cached j) (c.messages j)

-- Every replica will have the stored flag once its messages are handled.
abbrev pub Settles : Replicas → Type 0
Settles c = (j : ℕ) → finally j c ≡ says_paused c.stored

after_messages-append :
    (b : Bool) (ms : List String) (m : String) → after_messages b (ms ++ m ∷ []) ≡ str_eq m "1"
after_messages-append b [] m = refl
after_messages-append b (n ∷ ms) m = after_messages-append (str_eq n "1") ms m

set_paused-Settles :
    (i : ℕ) (p : Bool) (c : Replicas) → Settles (set_paused answered answered i p c)
unfolding set_paused publish
set_paused-Settles i p c j = after_messages-append _ (c.messages j) (value_of p)

-- Changing the cache of one replica, where its messages decide or it gets the stored flag.
cache-finally :
    (i j : ℕ) (b : Bool) (ms : List String) (c : Replicas) (want : Bool)
    → after_messages b ms ≡ want
    → finally j c ≡ want
    → after_messages (at_replica i b c.cached j) (at_replica i ms c.messages j) ≡ want
cache-finally i j b ms c want here there = elim (Bool-cases (i == j)) [
  | inl e ↦ rw e here
  | inr e ↦ rw e there
]

handle-Settles :
    (i : ℕ) (ms : List String) (c : Replicas)
    → c.messages i ≡ ms
    → Settles c
    → Settles (handle i ms c)
handle-Settles i [] c e settles = settles
handle-Settles i (m ∷ ms) c e settles = λ j.
    cache-finally i j (str_eq m "1") ms c (says_paused c.stored)
      (ap (λ r. after_messages (c.cached i) r) (sym e) ∙ settles i) (settles j)

refreshed :
    (want old : Bool) (ms : List String)
    → after_messages old ms ≡ want
    → after_messages want ms ≡ want
refreshed want old [] e = refl
refreshed want old (m ∷ ms) e = e

on_refresh-Settles : (i : ℕ) (c : Replicas) → Settles c → Settles (on_refresh answered i c)
unfolding on_refresh read_paused
on_refresh-Settles i c settles j = elim (Bool-cases (i == j)) [
  | inl e ↦ rw e (refreshed (says_paused c.stored) (c.cached j) (c.messages j) (settles j))
  | inr e ↦ rw e (settles j)
]

join_replica-Settles : (i : ℕ) (c : Replicas) → Settles c → Settles (join_replica answered i c)
unfolding join_replica read_paused
join_replica-Settles i c settles j =
    cache-finally i j (says_paused c.stored) [] c (says_paused c.stored) refl (settles j)

event-Settles : (e : Event) (c : Replicas) → Settles c → Settles (event e c)
unfolding pause resume on_message
event-Settles (paused_by i) c settles = set_paused-Settles i true c
event-Settles (resumed_by i) c settles = set_paused-Settles i false c
event-Settles (message_at i) c settles = handle-Settles i (c.messages i) c refl settles
event-Settles (refresh_at i) c settles = on_refresh-Settles i c settles
event-Settles (joined i) c settles = join_replica-Settles i c settles

-- However pauses, resumptions, messages, refreshes and new replicas follow each other, if Redis
-- answers, each of these calls is over before the next and every replica settles at first, each replica that has handled its messages says that
-- ingestion is paused exactly if the stored flag does.
pub is_paused-stored :
    (es : List Event) (c : Replicas) (j : ℕ)
    → Settles c
    → (events es c).messages j ≡ []
    → is_paused j (events es c) ≡ says_paused (events es c).stored
unfolding is_paused
is_paused-stored [] c j settles handled =
    ap (λ ms. after_messages (c.cached j) ms) (sym handled) ∙ settles j
is_paused-stored (e ∷ es) c j settles handled =
    is_paused-stored es (event e c) j (event-Settles e c settles) handled
