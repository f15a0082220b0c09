-- ===== src/Telegram/Mapping/Tests.antt =====
-- Runs and instances of the theorems on concrete data.
use roambench.Base.{ℕ, ◌-◌, ◌≡◌, refl, some, none, [], ◌∷◌, List, leb, if◌then◌else◌, arith}
use roambench.Base.Text.{codes}
use roambench.Telegram.Mapping.{pos, no_entries, Mapping, store, begin_lookup, remove, end_lookup}
use roambench.Telegram.Mapping.Lifetime.{
  Op, store_op, read_op, delete_op, cleanup_op, step, run, lookup-store,
}

abbrev empty : Mapping
empty = record { entries = no_entries; deleting = [] }

-- A lookup of another message is between its read and its delete when the message is stored.
abbrev busy : Mapping
busy = record { entries = no_entries; deleting = 8 ∷ [] }

abbrev later : List (ℕ × Op)
later =
    (3, read_op 7)
    ∷ (5, store_op 8 (pos 1) (codes "s2") (codes "logs"))
    ∷ (6, delete_op 8)
    ∷ (9, cleanup_op)
    ∷ []

lookup-store_example :
    (begin_lookup 10 12 7 (
      run 10 later
        (record busy { entries = store 2 7 (pos 1) (codes "s1") (codes "build") busy.entries }))).0
    ≡ (if leb (12 - 2) 10
        then some (record {
          session_id = codes "s1";
          session_name = codes "build";
          chat_id = pos 1;
          sent_at = 2;
        })
        else none)
lookup-store_example =
    lookup-store 10 2 12 7 (pos 1) (codes "s1") (codes "build") later busy refl (ground arith)

-- A message that is stored between the read and the delete of a lookup that found the older one stale is lost.
stored_between_lost :
    (begin_lookup 10 21 7 (
      run 10
        ((0, store_op 7 (pos 1) (codes "s1") (codes "old"))
          ∷ (20, read_op 7)
          ∷ (20, store_op 7 (pos 1) (codes "s2") (codes "new"))
          ∷ (20, delete_op 7)
          ∷ [])
        empty)).0
    ≡ none
unfolding begin_lookup run step store end_lookup remove
stored_between_lost = refl
