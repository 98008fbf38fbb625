-- ===== src/Alerts/Counter.antt =====
-- backend/alertengine/store.go: `localCounterStore.shouldFire`. Times are nanoseconds from the zero
-- time on; the lock makes each call one step.
use logmara.Prelude.{
  ℕ, ◌+◌, ◌≤◌, ◌<◌, ◌≡◌, Bool, true, false, Option, none, some, arith, ltb, if◌then◌else◌, String,
  str_eq, eq_refl, Assoc, lookup, insert, lookup-insert, ◌↔◌,
}

pub record Counter : Type 0 where
  pub count : ℕ
  pub window_ends : ℕ
  pub cooldown_ends : ℕ

abbrev pub Store : Type 0
Store = Assoc Counter

-- What a rule asks of the store.
pub record Ask : Type 0 where
  pub delta : ℕ
  pub threshold : ℕ
  pub window : ℕ
  pub cooldown : ℕ

abbrev pub new_counter : ℕ → Counter
new_counter ends = record { count = 0; window_ends = ends; cooldown_ends = 0 }

-- The counter that the call works on: a missing one, and one whose window is over, are replaced.
unfoldable pub current : Option Counter → ℕ → ℕ → Counter
current none now window = new_counter (now + window)
current (some c) now window = if ltb c.window_ends now then new_counter (now + window) else c

-- The rest of the call on that counter.
unfoldable pub count_up : Counter → Ask → ℕ → Bool × Counter
count_up c a now =
    let c' = record c { count = c.count + a.delta } in
    if ltb c'.count a.threshold
    then (false, c')
    else if ltb now c'.cooldown_ends
    then (false, c')
    else (true, record c' { cooldown_ends = now + a.cooldown; count = 0 })

unfoldable pub should_fire : String → Ask → ℕ → Store → Bool × Store
should_fire key a now s =
    let (fired, c) = count_up (current (lookup key s) now a.window) a now in (fired, insert key c s)

-- What the call does to its key and to every other.
pub should_fire-lookup :
    (key j : String) (a : Ask) (now : ℕ) (s : Store)
    → lookup j (should_fire key a now s).1 ≡ (
        if str_eq key j
        then some (count_up (current (lookup key s) now a.window) a now).1
        else lookup j s)
unfolding should_fire
should_fire-lookup key j a now s = lookup-insert key j _ s

-- A call fires exactly when the events counted in the window, its own included, reach the
-- threshold and the counter is not cooling down.
pub should_fire_iff :
    (key : String) (a : Ask) (now : ℕ) (s : Store)
    → let c = current (lookup key s) now a.window in
      ((should_fire key a now s).0 ≡ true)
      ↔ ((a.threshold ≤ c.count + a.delta) × (c.cooldown_ends ≤ now))
unfolding should_fire count_up
should_fire_iff key a now s = (λ h. ground arith, λ h. ground arith)

-- After a call that fires, no call of the same key fires while the window of the counter lasts and
-- the cooldown is not over, whatever it counts.
pub cooldown_in_window :
    (key : String) (a b : Ask) (now later : ℕ) (s : Store)
    → (should_fire key a now s).0 ≡ true
    → later ≤ (current (lookup key s) now a.window).window_ends
    → later < now + a.cooldown
    → (should_fire key b later (should_fire key a now s).1).0 ≡ false
cooldown_in_window key a b now later s fired inside cooling =
    let same = should_fire-lookup key key a now s in
    unfold should_fire current count_up in ground (arith, same, eq_refl key)
