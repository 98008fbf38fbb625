-- ===== src/Leader/Holding.antt =====
-- backend/sharedstate/leader.go: the lock means what it says. A true answer of `Acquire` and `Renew`
-- stands for the key's value, and so does leading after a tick.
use logmara.Prelude.{
  ℕ, zero, suc, ◌+◌, ◌≡◌, ◌≢◌, ==_iff, ltb, Bool, true, false, ◌&&◌, Option, none, some, if_splits,
  if_holds, refl, sym, ap, ◌∙◌, inl, inr, Option-cases, Reply, answered, failed_before,
  failed_after,
}
use logmara.Leader.Lock.{
  RedisKey, Attempt, with_reply, is_holder, or_retry, acquire_from, acquire, renew_script,
  release_script, renewal, renew, release, max_attempts,
}

clash : {b : Bool} → b ≡ false → b ≡ true → ⊥
clash e t = cc

same_value : {v w : ℕ} → some v ≡ some w → v ≡ w
same_value h = cc

absent_present : {v : ℕ} → none ≡ some v → ⊥
absent_present h = cc

holder_is : (id : ℕ) (o : Option ℕ) → is_holder id o ≡ true → o ≡ some id
holder_is id none e = absurd (cc)
holder_is id (some v) e = ap some ((==_iff v id).0 e)

not_holder : (id : ℕ) (o : Option ℕ) → is_holder id o ≡ false → o ≡ some id → ⊥
not_holder id none e h = cc
not_holder id (some v) e h = clash e ((==_iff v id).1 (same_value h))

module _ (redis : RedisKey) where
  open redis use {
    Db, get, set_nx, pexpire, del, set_nx-absent, set_nx-present, get-pexpire, get-del,
  }

  -- The instance is the key's value.
  abbrev pub Holds : ℕ → Db → Type 0
  Holds id db = get db ≡ some id

  -- If the answer is true, the instance holds the key.
  abbrev pub TrueHolds : ℕ → Bool × Db → Type 0
  TrueHolds id (ok, db) = ok ≡ true → Holds id db

  set_nx-Holds : (id : ℕ) (db : Db) → TrueHolds id (set_nx id db)
  set_nx-Holds id db = elim (Option-cases (get db)) [
    | inl e ↦ λ t. (set_nx-absent id db e).1
    | inr (v, e) ↦ λ t. absurd (clash (set_nx-present id v db e).0 t)
  ]

  or_retry-Holds :
      (id : ℕ) (r : Reply) (try : Bool × Db) (db : Db) (retry : Db → Bool × Db)
      → TrueHolds id try
      → ((db' : Db) → TrueHolds id (retry db'))
      → TrueHolds id (or_retry redis retry (with_reply r try db))
  or_retry-Holds id answered (ok, after) db retry h rest = h
  or_retry-Holds id failed_before (ok, after) db retry h rest = rest db
  or_retry-Holds id failed_after (ok, after) db retry h rest = rest after

  acquire_from-Holds :
      (n k : ℕ) (world : ℕ → Attempt) (id : ℕ) (db : Db)
      → TrueHolds id (acquire_from redis n k world id db)
  unfolding acquire_from
  acquire_from-Holds zero k world id db = λ t. absurd (cc)
  acquire_from-Holds (suc n) k world id db =
      if_holds (TrueHolds id) (ltb 0 k && (world k).cancelled) (λ t. absurd (cc))
        (or_retry-Holds id (world k).reply (set_nx id db) db (acquire_from redis n (k + 1) world id)
          (set_nx-Holds id db) (acquire_from-Holds n (k + 1) world id))

  -- If `Acquire` returns true, the instance holds the key.
  pub acquire-Holds :
      (world : ℕ → Attempt) (id : ℕ) (db : Db)
      → (acquire redis world id db).0 ≡ true
      → Holds id (acquire redis world id db).1
  unfolding acquire
  acquire-Holds world id db = acquire_from-Holds max_attempts 0 world id db

  is_holder-Holds : (id : ℕ) (db : Db) → is_holder id (get db) ≡ true → Holds id db
  is_holder-Holds id db e = holder_is id (get db) e

  -- What `Renew` says of the key it leaves.
  abbrev pub RenewTells : ℕ → Reply → Db → (Bool × Bool) × Db → Type 0
  RenewTells id r db ((ok, lost), db') =
      (ok ≡ true → (r ≡ answered) × Holds id db')
      × (lost ≡ true → (r ≡ answered) × (db' ≡ db) × (Holds id db → ⊥))
      × (ok ≡ false → lost ≡ false → r ≢ answered)

  renew-answered :
      (id : ℕ) (db : Db)
      → RenewTells id answered db
          (renewal redis (with_reply answered (renew_script redis id db) db))
  unfolding renew_script
  renew-answered id db =
      if_splits (λ a. RenewTells id answered db (renewal redis (with_reply answered a db)))
        (is_holder id (get db))
        (λ e. (
          λ t. (refl, get-pexpire db ∙ is_holder-Holds id db e),
          λ t. absurd (cc),
          λ t u. absurd (cc),
        ))
        (λ e. (
          λ t. absurd (cc),
          λ t. (refl, refl, λ holds. absurd (not_holder id (get db) e holds)),
          λ t u. absurd (cc),
        ))

  -- `Renew` returns ok only if it was answered and the instance holds the key, lost only if it was
  -- answered, the key is as before and the instance does not hold it, and neither only if the call
  -- failed.
  pub renew-RenewTells : (r : Reply) (id : ℕ) (db : Db) → RenewTells id r db (renew redis r id db)
  unfolding renew
  renew-RenewTells answered id db = renew-answered id db
  renew-RenewTells failed_before id db = (λ t. absurd (cc), λ t. absurd (cc), λ t u e. absurd (cc))
  renew-RenewTells failed_after id db = (λ t. absurd (cc), λ t. absurd (cc), λ t u e. absurd (cc))

  -- An answered `Release` leaves a key that is not the instance's, and the keys of others alone.
  pub release-lem :
      (id : ℕ) (db : Db)
      → (Holds id (release redis answered id db) → ⊥)
        × ((v : ℕ) → v ≢ id → get db ≡ some v → get (release redis answered id db) ≡ some v)
  unfolding release release_script
  release-lem id db =
      if_splits
        (λ (r : Bool × Db).
          (Holds id r.1 → ⊥) × ((v : ℕ) → v ≢ id → get db ≡ some v → get r.1 ≡ some v))
        (is_holder id (get db))
        (λ e.
          let gone = get-del db in
          let holds = is_holder-Holds id db e in
          (λ h. absent_present (sym gone ∙ h), λ v ne h. absurd (ne (same_value (sym h ∙ holds)))))
        (λ e. (λ h. not_holder id (get db) e h, λ v ne h. h))

  set_nx-some :
      (id : ℕ) (db : Db) → get db ≡ some id → ((set_nx id db).0 ≡ false) × Holds id (set_nx id db).1
  set_nx-some id db e = set_nx-present id id db e

  -- If the key is free, the first attempt reaches Redis but returns an error and the second is
  -- answered, `Acquire` returns false although the instance holds the key.
  pub acquire_after_timeout :
      (world : ℕ → Attempt) (id : ℕ) (db : Db)
      → get db ≡ none
      → (world 0).reply ≡ failed_after
      → (world 1).cancelled ≡ false
      → (world 1).reply ≡ answered
      → ((acquire redis world id db).0 ≡ false) × Holds id (acquire redis world id db).1
  unfolding acquire acquire_from
  acquire_after_timeout world id db free e0 c1 e1 =
      let second = set_nx-some id (set_nx id db).1 (set_nx-absent id db free).1 in
      rw (e0, c1, e1) second

  -- If the key is free and the first attempt is answered, `Acquire` returns true.
  pub acquire-free :
      (world : ℕ → Attempt) (id : ℕ) (db : Db)
      → get db ≡ none
      → (world 0).reply ≡ answered
      → (acquire redis world id db).0 ≡ true
  unfolding acquire acquire_from
  acquire-free world id db free e0 = rw e0 ((set_nx-absent id db free).0)
