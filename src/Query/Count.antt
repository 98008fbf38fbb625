-- ===== src/Query/Count.antt =====
-- backend/handler/querybuilder.go: `cachedFilteredCount`, the count cache of the log endpoints.
-- Times are nanoseconds; `fetch` is the result of the query that a miss runs.
use logmara.Prelude.{
  ℕ, suc, ◌-◌, ◌*◌, ◌≤◌, ◌<◌, ◌≡◌, refl, ◌⊎◌, inl, inr, String, List, [], ◌∷◌, Option, none, some,
  arith, ltb, leb, if◌then◌else◌, eq_iff, Assoc, lookup, insert, lookup-insert, length, Bool-cases,
}

pub record CountEntry : Type 0 where
  pub total : ℕ
  pub at : ℕ

abbrev pub count_ttl : ℕ
count_ttl = 15 * 1000000000

abbrev pub max_entries : ℕ
max_entries = 1000

-- `ok && time.Since(e.at) < filteredCountTTL`, with the entry.
unfoldable pub fresh_entry : String → ℕ → Assoc CountEntry → Option CountEntry
fresh_entry k now m = elim (lookup k m) [
  | none ↦ none
  | some e ↦ if ltb (now - e.at) count_ttl then some e else none
]

-- The write after a fetch, at the time `at`.
unfoldable pub store_count : String → ℕ → ℕ → Assoc CountEntry → Assoc CountEntry
store_count k total at m =
    insert k (record { total = total; at = at }) (if leb max_entries (length m) then [] else m)

-- A query that one call runs: when it is answered, and the count (`none` is an error).
pub record Fetch : Type 0 where
  pub answered : ℕ
  pub outcome : Option ℕ

-- A hit is answered from the cache; a miss runs the query, whose error changes nothing.
unfoldable pub answer :
    String → Option CountEntry → Fetch → Option ℕ → Assoc CountEntry → Option ℕ × Assoc CountEntry
answer k (some e) f outcome m = (some e.total, m)
answer k none f none m = (none, m)
answer k none f (some total) m = (some total, store_count k total f.answered m)

unfoldable pub cached_filtered_count :
    String → ℕ → Fetch → Assoc CountEntry → Option ℕ × Assoc CountEntry
cached_filtered_count k now f m = answer k (fresh_entry k now m) f f.outcome m

length-insert :
    (k : String) (e : CountEntry) (m : Assoc CountEntry) → length (insert k e m) ≤ suc (length m)
unfolding insert
length-insert k e [] = omega arith
length-insert k e ((j, d) ∷ m) = ground (arith, length-insert k e m)

store_count-length :
    (k : String) (total at : ℕ) (m : Assoc CountEntry)
    → length m ≤ max_entries
    → length (store_count k total at m) ≤ max_entries
unfolding store_count
store_count-length k total at m h =
    let e : CountEntry = record { total = total; at = at } in
    elim (Bool-cases (leb max_entries (length m))) [
      | inl full ↦ rw full (omega (arith, length-insert k e []))
      | inr room ↦ rw room (ground (arith, length-insert k e m))
    ]

-- One request to an endpoint: the key of its filter set, when it looks, and the query that it
-- would run. The log keeps every successful query with its key.
pub record Request : Type 0 where
  pub cache_key : String
  pub looked : ℕ
  pub fetch : Fetch

pub record Cached : Type 0 where
  pub entries : Assoc CountEntry
  pub log : List (String × CountEntry)

-- The queries that were run, and how they ended: the hit hides the query of its request.
abbrev pub note_fetch :
    String
    → Option CountEntry
    → Fetch
    → Option ℕ
    → List (String × CountEntry)
    → List (String × CountEntry)
note_fetch k (some e) f outcome log = log
note_fetch k none f none log = log
note_fetch k none f (some total) log = (k, record { total = total; at = f.answered }) ∷ log

-- The call, with the queries that were run noted in the log.
unfoldable pub serve : Cached → Request → Option ℕ × Cached
serve c r =
    let (result, m) = cached_filtered_count r.cache_key r.looked r.fetch c.entries in
    let hit = fresh_entry r.cache_key r.looked c.entries in
    (result, record { entries = m; log = note_fetch r.cache_key hit r.fetch r.fetch.outcome c.log })

-- The log has a query of this key with this count and this time.
abbrev pub Logged : String → CountEntry → List (String × CountEntry) → Type 0
Logged k e [] = ⊥
Logged k e ((j, d) ∷ log) = ((j ≡ k) × (d.total ≡ e.total) × (d.at ≡ e.at)) ⊎ Logged k e log

-- Every entry of the cache is the outcome of a query of its key, and the cache is within its size.
pub record IsBacked (c : Cached) : Type 0 where
  pub sized : length c.entries ≤ max_entries
  pub backed : (k : String) (e : CountEntry) → lookup k c.entries ≡ some e → Logged k e c.log

insert-lookup :
    (k j : String) (d e : CountEntry) (m : Assoc CountEntry)
    → lookup j (insert k d m) ≡ some e
    → ((k ≡ j) × (d.total ≡ e.total) × (d.at ≡ e.at)) ⊎ (lookup j m ≡ some e)
insert-lookup k j d e m h = ground (arith, lookup-insert k j d m, eq_iff k j)

store_count-lookup :
    (k j : String) (total at : ℕ) (m : Assoc CountEntry) (e : CountEntry)
    → lookup j (store_count k total at m) ≡ some e
    → ((k ≡ j) × (total ≡ e.total) × (at ≡ e.at)) ⊎ (lookup j m ≡ some e)
unfolding store_count lookup
store_count-lookup k j total at m e h =
    let d : CountEntry = record { total = total; at = at } in
    elim (Bool-cases (leb max_entries (length m))) [
      | inl full ↦ ground (arith, insert-lookup k j d e [] (rw full at h))
      | inr room ↦ insert-lookup k j d e m (rw room at h)
    ]

answer-IsBacked :
    (k : String) (hit : Option CountEntry) (f : Fetch) (outcome : Option ℕ) (c : Cached)
    → IsBacked c
    → IsBacked (record {
      entries = (answer k hit f outcome c.entries).1;
      log = note_fetch k hit f outcome c.log;
    })
unfolding answer
answer-IsBacked k (some e) f outcome c h = record { sized = h.sized; backed = h.backed }
answer-IsBacked k none f none c h = record { sized = h.sized; backed = h.backed }
answer-IsBacked k none f (some total) c h = record {
  sized = store_count-length k total f.answered c.entries h.sized;
  backed = λ j e found. elim (store_count-lookup k j total f.answered c.entries e found) [
    | inl new ↦ inl new
    | inr old ↦ inr (h.backed j e old)
  ];
}

-- Every request keeps the cache within 1000 entries, each of them the outcome of a query that was
-- run for its key.
pub serve-IsBacked : (c : Cached) (r : Request) → IsBacked c → IsBacked (serve c r).1
unfolding serve cached_filtered_count
serve-IsBacked c r h = answer-IsBacked r.cache_key _ r.fetch r.fetch.outcome c h

fresh_entry-lookup :
    (k : String) (now : ℕ) (m : Assoc CountEntry) (e : CountEntry)
    → fresh_entry k now m ≡ some e
    → (lookup k m ≡ some e) × (now - e.at < count_ttl)
unfolding fresh_entry
fresh_entry-lookup k now m e h = ground arith

-- What an answer rests on.
abbrev pub Answered : Cached → Request → Option ℕ → Type 0
Answered c r none = (r.fetch.outcome ≡ none)
Answered c r (some total) =
    (r.fetch.outcome ≡ some total)
    ⊎ ((at : ℕ) × Logged r.cache_key (record { total = total; at = at }) c.log
        × (r.looked - at < count_ttl))

answer-Answered :
    (c : Cached) (r : Request) (hit : Option CountEntry) (outcome : Option ℕ)
    → fresh_entry r.cache_key r.looked c.entries ≡ hit
    → r.fetch.outcome ≡ outcome
    → IsBacked c
    → Answered c r (answer r.cache_key hit r.fetch outcome c.entries).0
unfolding answer
answer-Answered c r none none p q h = q
answer-Answered c r none (some total) p q h = inl q
answer-Answered c r (some e) outcome p q h =
    let (found, young) = fresh_entry-lookup r.cache_key r.looked c.entries e p in
    inr (e.at, h.backed r.cache_key e found, young)

-- A count that is answered is the outcome of the query of this request, or of a query of the same
-- key that was answered less than 15 seconds before; an error is answered only when the query of
-- this request failed.
pub serve-Answered : (c : Cached) (r : Request) → IsBacked c → Answered c r (serve c r).0
unfolding serve cached_filtered_count
serve-Answered c r h = answer-Answered c r _ r.fetch.outcome refl refl h
