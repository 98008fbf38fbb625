-- ===== src/Control/Tests.antt =====
-- Runs of the pause flag.
use logmara.Prelude.{◌≡◌, refl, true, false, none, [], ◌∷◌, answered, failed_before}
use logmara.Control.Flag.{
  Replicas, says_paused, read_paused, publish, set_paused, pause, resume, on_message, on_refresh,
  is_paused, new_local_controller, local_pause, local_resume, local_is_paused,
}
use logmara.Control.Settling.{paused_by, resumed_by, message_at, events, is_paused-stored}

abbrev running : Replicas
running = record { stored = none; cached = λ i. false; messages = λ i. [] }

local_test :
    (local_is_paused (local_pause new_local_controller) ≡ true)
    × (local_is_paused (local_resume (local_pause new_local_controller)) ≡ false)
unfolding local_is_paused local_pause local_resume new_local_controller
local_test = (refl, refl)

-- A refresh while Redis does not answer takes the pause back.
outage_test : is_paused 1 (on_refresh failed_before 1 (pause answered answered 1 running)) ≡ false
unfolding is_paused on_refresh read_paused pause set_paused publish
outage_test = refl

is_paused-stored_example :
    let c =
      events
        (paused_by 1 ∷ resumed_by 2 ∷ message_at 3 ∷ paused_by 2 ∷ message_at 3 ∷ message_at 3 ∷ [])
        running in
    is_paused 3 c ≡ says_paused c.stored
unfolding pause resume set_paused publish on_message
is_paused-stored_example =
    is_paused-stored
      (paused_by 1 ∷ resumed_by 2 ∷ message_at 3 ∷ paused_by 2 ∷ message_at 3 ∷ message_at 3 ∷ [])
      running 3 (λ j. refl) refl
