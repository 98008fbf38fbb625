-- ===== src/Flush/Memory.antt =====
-- A Redis hash that is a function from its fields, for the tests.
use logmara.Prelude.{
  ℕ, ◌==◌, ==_iff, ◌≡◌, ◌≢◌, refl, ap, inl, inr, Option, none, some, Bool, true, false,
  if◌then◌else◌, Bool-cases,
}
use logmara.Flush.Hash.{Field, flushed_seq, flushed_pos, seq, RedisHash}

abbrev pub field_eq : Field → Field → Bool
field_eq flushed_seq flushed_seq = true
field_eq flushed_pos flushed_pos = true
field_eq (seq m) (seq n) = m == n
field_eq flushed_seq flushed_pos = false
field_eq flushed_seq (seq n) = false
field_eq flushed_pos flushed_seq = false
field_eq flushed_pos (seq n) = false
field_eq (seq m) flushed_seq = false
field_eq (seq m) flushed_pos = false

pub field_eq_self : (f : Field) → field_eq f f ≡ true
field_eq_self flushed_seq = refl
field_eq_self flushed_pos = refl
field_eq_self (seq n) = (==_iff n n).1 refl

pub field_eq_same : (f g : Field) → field_eq f g ≡ true → f ≡ g
field_eq_same flushed_seq flushed_seq e = refl
field_eq_same flushed_pos flushed_pos e = refl
field_eq_same (seq m) (seq n) e = ap seq ((==_iff m n).0 e)
field_eq_same flushed_seq flushed_pos e = absurd (cc)
field_eq_same flushed_seq (seq n) e = absurd (cc)
field_eq_same flushed_pos flushed_seq e = absurd (cc)
field_eq_same flushed_pos (seq n) e = absurd (cc)
field_eq_same (seq m) flushed_seq e = absurd (cc)
field_eq_same (seq m) flushed_pos e = absurd (cc)

pub field_eq_ne : (f g : Field) → f ≢ g → field_eq f g ≡ false
field_eq_ne f g ne = elim (Bool-cases (field_eq f g)) [
  | inr e ↦ e
  | inl e ↦ absurd (ne (field_eq_same f g e))
]

abbrev pub Memory : Type 0
Memory = Field → Option ℕ

abbrev pub write : Field → ℕ → Memory → Memory
write f v h g = if field_eq f g then some v else h g

abbrev pub write_if : Option ℕ → Field → ℕ → Memory → Memory
write_if none f v h = write f v h
write_if (some w) f v h = h

pub write_if_new : (f : Field) (v : ℕ) (h : Memory) → h f ≡ none → write_if (h f) f v h f ≡ some v
write_if_new f v h e = rw (e, field_eq_self f)

pub write_if_old :
    (o : Option ℕ) (f : Field) (v w : ℕ) (h : Memory)
    → h f ≡ some w
    → o ≡ some w
    → write_if o f v h f ≡ some w
write_if_old none f v w h e e1 = absurd (cc)
write_if_old (some q) f v w h e e1 = e

pub write_if_ne :
    (o : Option ℕ) (f g : Field) (v : ℕ) (h : Memory) → f ≢ g → write_if o f v h g ≡ h g
write_if_ne none f g v h ne = rw (field_eq_ne f g ne)
write_if_ne (some w) f g v h ne = refl

abbrev pub memory : RedisHash
memory = record {
  Hash = Memory;
  empty = λ f. none;
  hget = λ f h. h f;
  hset = write;
  hsetnx = λ f v h. write_if (h f) f v h;
  hget-empty = λ f. refl;
  hget-hset_self = λ f v h. rw (field_eq_self f);
  hget-hset_ne = λ f g v h ne. rw (field_eq_ne f g ne);
  hget-hsetnx_new = write_if_new;
  hget-hsetnx_old = λ f v w h e. write_if_old (h f) f v w h e e;
  hget-hsetnx_ne = λ f g v h ne. write_if_ne (h f) f g v h ne;
}
