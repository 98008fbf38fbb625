-- ===== src/Leader/Lock.antt =====
-- backend/sharedstate/leader.go: the lock. `Acquire` with its retries, `Renew` and `Release` with
-- their scripts, over one Redis key. A call that returns an error may or may not have reached
-- Redis.
use logmara.Prelude.{
  ℕ, zero, suc, ◌+◌, ◌≡◌, ◌==◌, ltb, Bool, true, false, ◌&&◌, Option, none, some, if◌then◌else◌,
  Reply, answered, failed_before, failed_after,
}

-- The key `leader:<key>`, with the commands GET, SET NX, PEXPIRE and DEL as Redis documents them.
pub record RedisKey : Type 1 where
  pub Db : Type 0
  pub get : Db → Option ℕ
  pub set_nx : ℕ → Db → Bool × Db
  pub pexpire : Db → Db
  pub del : Db → Db
  pub set_nx-absent :
      (v : ℕ) (db : Db) → get db ≡ none → ((set_nx v db).0 ≡ true) × (get (set_nx v db).1 ≡ some v)
  pub set_nx-present :
      (v w : ℕ) (db : Db)
      → get db ≡ some w
      → ((set_nx v db).0 ≡ false) × (get (set_nx v db).1 ≡ some w)
  pub get-pexpire : (db : Db) → get (pexpire db) ≡ get db
  pub get-del : (db : Db) → get (del db) ≡ none

-- An attempt of `Acquire`: what happens to its command, and whether the context ends in the
-- second before it.
pub record Attempt : Type 0 where
  pub reply : Reply
  pub cancelled : Bool

abbrev pub with_reply : {A Db : Type 0} → Reply → A × Db → Db → Option A × Db
with_reply answered (a, after) before = (some a, after)
with_reply failed_before (a, after) before = (none, before)
with_reply failed_after (a, after) before = (none, after)

abbrev pub is_holder : ℕ → Option ℕ → Bool
is_holder id none = false
is_holder id (some v) = v == id

abbrev pub max_attempts : ℕ
max_attempts = 3

module _ (redis : RedisKey) where
  open redis use {Db, get, set_nx, pexpire, del}

  -- An error is retried, an answer is returned.
  abbrev pub or_retry : (Db → Bool × Db) → Option Bool × Db → Bool × Db
  or_retry retry (none, db) = retry db
  or_retry retry (some ok, db) = (ok, db)

  -- The loop of `Acquire`, with the attempts left and the attempt's index.
  unfoldable pub acquire_from : ℕ → ℕ → (ℕ → Attempt) → ℕ → Db → Bool × Db
  acquire_from zero k world id db = (false, db)
  acquire_from (suc n) k world id db =
      let retry = acquire_from n (k + 1) world id in
      if ltb 0 k && (world k).cancelled
      then (false, db)
      else or_retry retry (with_reply (world k).reply (set_nx id db) db)

  unfoldable pub acquire : (ℕ → Attempt) → ℕ → Db → Bool × Db
  acquire world id db = acquire_from max_attempts 0 world id db

  -- `renewScript`: 1 is returned if the key was this instance's.
  unfoldable pub renew_script : ℕ → Db → Bool × Db
  renew_script id db = if is_holder id (get db) then (true, pexpire db) else (false, db)

  -- `releaseScript`.
  unfoldable pub release_script : ℕ → Db → Bool × Db
  release_script id db = if is_holder id (get db) then (true, del db) else (false, db)

  abbrev pub renewal : Option Bool × Db → (Bool × Bool) × Db
  renewal (none, db) = ((false, false), db)
  renewal (some true, db) = ((true, false), db)
  renewal (some false, db) = ((false, true), db)

  -- `Renew`: the flags `ok` and `lost`.
  unfoldable pub renew : Reply → ℕ → Db → (Bool × Bool) × Db
  renew r id db = renewal (with_reply r (renew_script id db) db)

  unfoldable pub release : Reply → ℕ → Db → Db
  release r id db = (with_reply r (release_script id db) db).1
