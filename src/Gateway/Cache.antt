-- ===== src/Gateway/Cache.antt =====
-- gateway/internal/infra/cache/cache.go: the local cache of authorisation decisions. The clock is
-- an argument, and so is the key that the map's iteration yields first when an entry must go.
pub mod Laws
use ztna_project.Base.{
  ℕ, ◌+◌, Bool, Option, none, some, List, [], ltb, leb, if◌then◌else◌, ℤ, pos, is_positive,
  pos_part, Text, length, lookup, insert, delete,
}

pub record DecisionEntry : Type 0 where
  pub decision : Text
  pub reason : Text
  pub policy_version : ℤ

-- Times and durations are nanoseconds.
pub record Item : Type 0 where
  pub entry : DecisionEntry
  pub expires : ℕ

pub record Cache : Type 0 where
  pub items : List (Text × Item)
  pub max_entries : ℕ

unfoldable pub new_cache : ℤ → Cache
new_cache max = record { items = []; max_entries = if is_positive max then pos_part max else 5000 }

-- An entry past its time is deleted by the read that finds it.
unfoldable pub get : Text → ℕ → Cache → Cache × Option DecisionEntry
get key now c = elim (lookup key c.items) [
  | none ↦ (c, none)
  | some it ↦
      if ltb it.expires now
      then (record c { items = delete key c.items }, none)
      else (c, some it.entry)
]

-- A full cache first loses one entry, `victim`.
unfoldable pub make_room : Text → Cache → Cache
make_room victim c =
    if leb c.max_entries (length c.items) then record c { items = delete victim c.items } else c

unfoldable pub put : (victim key : Text) → DecisionEntry → (ttl : ℤ) → (now : ℕ) → Cache → Cache
unfolding make_room
put victim key entry ttl now c =
    if is_positive ttl
    then (let room = make_room victim c in
        record room {
          items = insert key (record { entry = entry; expires = now + pos_part ttl }) room.items;
        })
    else c

unfoldable clear : Cache → Cache
clear c = record c { items = [] }
