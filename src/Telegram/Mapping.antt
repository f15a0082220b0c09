-- ===== src/Telegram/Mapping.antt =====
-- Which terminal a Telegram message is about: internal/telegram/mapping.go. The map from message ids to
-- entries is a function. A duration below zero acts as 0. The lock is released between the read of
-- a lookup and its delete, so they are two steps.
pub mod Lifetime
mod Tests
use roambench.Base.{ℕ, ◌-◌, Bool, Option, none, some, List, [], ◌∷◌, any, ltb, ◌==◌, if◌then◌else◌}
use roambench.Base.Text.{Text}

-- An int64, only copied here.
pub data ChatId : Type 0 where
  pos negsuc : ℕ → ChatId

-- `mappingEntry`.
pub record Entry : Type 0 where
  pub session_id : Text
  pub session_name : Text
  pub chat_id : ChatId
  pub sent_at : ℕ

abbrev pub Entries : Type 0
Entries = ℕ → Option Entry

abbrev pub no_entries : Entries
no_entries k = none

abbrev pub assign : ℕ → Option Entry → Entries → Entries
assign id e m k = if k == id then e else m k

-- The ttl that `NewMessageMapping` sets: 24 hours where none is given.
unfoldable pub ttl_of : ℕ → ℕ
ttl_of ttl = if ttl == 0 then 86_400_000_000_000 else ttl

-- `Store`.
unfoldable pub store : ℕ → ℕ → ChatId → Text → Text → Entries → Entries
store now id chat session name m =
    assign id
      (some (record { session_id = session; session_name = name; chat_id = chat; sent_at = now })) m

abbrev pub is_stale : ℕ → ℕ → Entry → Bool
is_stale ttl now e = ltb ttl (now - e.sent_at)

-- The map, and the ids that lookups have found stale and are still to delete, one for each such lookup.
pub record Mapping : Type 0 where
  pub entries : Entries
  pub deleting : List ℕ

-- `Lookup` up to its answer: the entry is read under the lock, and tested at the time given. What is
-- stale is deleted later.
unfoldable pub begin_lookup : ℕ → ℕ → ℕ → Mapping → Option Entry × Mapping
begin_lookup ttl now id m = elim (m.entries id) [
  | none ↦ (none, m)
  | some e ↦
      if is_stale ttl now e then (none, record m { deleting = id ∷ m.deleting }) else (some e, m)
]

unfoldable pub remove : ℕ → List ℕ → List ℕ
remove id [] = []
remove id (k ∷ ks) = if k == id then ks else k ∷ remove id ks

-- The delete of a lookup that has found this id stale, whatever stands there by now.
unfoldable pub end_lookup : ℕ → Mapping → Mapping
unfolding remove
end_lookup id m =
    if any (λ k. k == id) m.deleting
    then record m { entries = assign id none m.entries; deleting = remove id m.deleting }
    else m

-- `Cleanup`.
unfoldable pub cleanup : ℕ → ℕ → Entries → Entries
cleanup ttl now m k = elim (m k) [
  | none ↦ none
  | some e ↦ if is_stale ttl now e then none else some e
]
