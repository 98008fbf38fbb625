-- ===== src/Alerts/Cooldown.antt =====
-- backend/alertengine/store.go: what the local store keeps of a cooldown, and what it loses. The
-- cooldown is a field of the counter, and a counter is replaced when its window is over.
use logmara.Prelude.{
  ℕ, ◌+◌, ◌≤◌, ◌<◌, ◌≡◌, refl, true, false, Option, none, some, arith, String, eq_refl, lookup,
}
use logmara.Alerts.Counter.{
  Counter, Store, Ask, current, count_up, should_fire, should_fire-lookup, cooldown_in_window,
}

-- The bug: once the window of the counter is over, a call that reaches the threshold by itself
-- fires, however much of the cooldown of the last firing is left.
pub cooldown_lost :
    (key : String) (a b : Ask) (now later : ℕ) (s : Store)
    → (should_fire key a now s).0 ≡ true
    → (current (lookup key s) now a.window).window_ends < later
    → b.threshold ≤ b.delta
    → (should_fire key b later (should_fire key a now s).1).0 ≡ true
cooldown_lost key a b now later s fired over enough =
    let same = should_fire-lookup key key a now s in
    unfold should_fire current count_up in ground (arith, same, eq_refl key)

-- The window that a call works in ends at most one window after the call, and not before it.
pub current-window_ends :
    (o : Option Counter) (now window : ℕ)
    → ((c : Counter) → o ≡ some c → c.window_ends ≤ now + window)
    → (now ≤ (current o now window).window_ends)
      × ((current o now window).window_ends ≤ now + window)
unfolding current
current-window_ends none now window h = (omega arith, omega arith)
current-window_ends (some c) now window h = (ground arith, ground (arith, h c refl))

-- With a cooldown of at least one window, a key fires at most once in each of its windows.
pub once_per_window :
    (key : String) (a b : Ask) (now later : ℕ) (s : Store)
    → (should_fire key a now s).0 ≡ true
    → ((c : Counter) → lookup key s ≡ some c → c.window_ends ≤ now + a.window)
    → a.window < a.cooldown
    → later ≤ (current (lookup key s) now a.window).window_ends
    → (should_fire key b later (should_fire key a now s).1).0 ≡ false
once_per_window key a b now later s fired bounded long inside =
    cooldown_in_window key a b now later s fired inside
      (omega (arith, current-window_ends (lookup key s) now a.window bounded))
