-- ===== src/Gateway/Cache/Laws.antt =====
-- The bound on the cache, and what a read returns after a write.
use ztna_project.Base.{
  ℕ, ◌+◌, ◌≤◌, ◌<◌, ◌≡◌, refl, true, Option, none, some, arith, ltb, leb, if◌then◌else◌, Bool-cases,
  Option-cases, ℤ, is_positive, pos_part, Text, text_eq_refl, length, lookup, delete, lookup-insert,
  length-insert-le, length-delete-le, length-delete-lt, inl, inr,
}
use ztna_project.Gateway.Cache.{Cache, DecisionEntry, Item, new_cache, get, make_room, put}

-- The cache holds at most `max_entries` entries, and that is not 0.
pub record IsBounded (c : Cache) : Type 0 where
  pub room : 0 < c.max_entries
  pub bounded : length c.items ≤ c.max_entries

new_cache-IsBounded : (max : ℤ) → IsBounded (new_cache max)
unfolding new_cache
new_cache-IsBounded max = ground arith

get-IsBounded : (key : Text) (now : ℕ) (c : Cache) → IsBounded c → IsBounded (get key now c).0
unfolding get
get-IsBounded key now c b = elim (Option-cases (lookup key c.items)) [
  | inl missing ↦ rw (missing, get) b
  | inr (it, found) ↦
      rw (found, get) (ground (arith, b.bounded, b.room, length-delete-le key c.items))
]

-- If the key that a full cache gives up is one of its keys, a write keeps the cache within its
-- bound.
pub put-IsBounded :
    (victim key : Text) (entry : DecisionEntry) (ttl : ℤ) (now : ℕ) (c : Cache) {w : Item}
    → IsBounded c
    → (c.max_entries ≤ length c.items → lookup victim c.items ≡ some w)
    → IsBounded (put victim key entry ttl now c)
unfolding put make_room
put-IsBounded victim key entry ttl now c {w} b chosen =
    elim (Bool-cases (leb c.max_entries (length c.items))) [
      | inl full ↦
          let fewer = length-delete-lt victim c.items {v = w} (chosen (ground (arith, full))) in
          ground (
            arith,
            full,
            fewer,
            length-insert-le key (record { entry = entry; expires = now + pos_part ttl })
                (delete victim c.items),
          )
      | inr free ↦ ground (
        arith,
        free,
        length-insert-le key (record { entry = entry; expires = now + pos_part ttl }) c.items,
      )
    ]

-- What a read of `key` returns, by the time and the item that stands there.
abbrev live_entry : ℕ → Option Item → Option DecisionEntry
live_entry now none = none
live_entry now (some it) = if ltb it.expires now then none else some it.entry

get_lem :
    (key : Text) (now : ℕ) (c : Cache) → (get key now c).1 ≡ live_entry now (lookup key c.items)
unfolding get
get_lem key now c = elim (Option-cases (lookup key c.items)) [
  | inl missing ↦ rw (missing, get)
  | inr (it, found) ↦ rw (found, get) (ground arith)
]

-- After a write with a positive lifetime the key is read back until that lifetime is over and not
-- later, whatever entry was given up.
get-put :
    (victim key : Text) (entry : DecisionEntry) (ttl : ℤ) (now later : ℕ) (c : Cache)
    → is_positive ttl ≡ true
    → (get key later (put victim key entry ttl now c)).1
      ≡ (if ltb (now + pos_part ttl) later then none else some entry)
unfolding put
get-put victim key entry ttl now later c p =
    rw (get_lem key later (put victim key entry ttl now c), p, put)
      (rw (lookup-insert key key _ (make_room victim c).items, text_eq_refl key) refl)
