-- ===== src/Flush/Hash.antt =====
-- Redis, as far as the script of backend/sharedstate/flushtracker.go uses it: one hash with the
-- commands HGET, HSET and HSETNX, and DEL of the whole key, as Redis documents them.
use logmara.Prelude.{ℕ, ◌≡◌, ◌≢◌, Option, none, some}

-- The fields of the hash `tailer:flush:tracker`.
pub data Field : Type 0 where
  flushed_seq flushed_pos : Field
  seq : ℕ → Field

pub record RedisHash : Type 1 where
  pub Hash : Type 0
  pub empty : Hash
  pub hget : Field → Hash → Option ℕ
  pub hset : Field → ℕ → Hash → Hash
  pub hsetnx : Field → ℕ → Hash → Hash
  pub hget-empty : (f : Field) → hget f empty ≡ none
  pub hget-hset_self : (f : Field) (v : ℕ) (h : Hash) → hget f (hset f v h) ≡ some v
  pub hget-hset_ne : (f g : Field) (v : ℕ) (h : Hash) → f ≢ g → hget g (hset f v h) ≡ hget g h
  pub hget-hsetnx_new :
      (f : Field) (v : ℕ) (h : Hash) → hget f h ≡ none → hget f (hsetnx f v h) ≡ some v
  pub hget-hsetnx_old :
      (f : Field) (v w : ℕ) (h : Hash) → hget f h ≡ some w → hget f (hsetnx f v h) ≡ some w
  pub hget-hsetnx_ne : (f g : Field) (v : ℕ) (h : Hash) → f ≢ g → hget g (hsetnx f v h) ≡ hget g h
