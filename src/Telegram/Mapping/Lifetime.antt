-- ===== src/Telegram/Mapping/Lifetime.antt =====
-- How long a message leads to its terminal.
use roambench.Base.{
  ℕ, ◌-◌, ◌≤◌, ◌<◌, ◌≡◌, ◌≢◌, ◌⊎◌, inl, inr, refl, Bool, false, none, some, List, [], ◌∷◌, ⊤, any,
  leb, ◌==◌, if◌then◌else◌, arith, Bool-cases, Option-cases, ltb→lt,
}
use roambench.Base.Text.{Text}
use roambench.Telegram.Mapping.{
  ChatId, Entry, Mapping, store, is_stale, begin_lookup, remove, end_lookup, cleanup,
}

-- The steps of any number of callers; the two of a lookup may have others between them.
pub data Op : Type 0 where
  store_op : ℕ → ChatId → Text → Text → Op
  read_op : ℕ → Op
  delete_op : ℕ → Op
  cleanup_op : Op

unfoldable pub step : ℕ → ℕ → Op → Mapping → Mapping
step ttl now (store_op id chat session name) m = record m {
  entries = store now id chat session name m.entries;
}
step ttl now (read_op id) m = (begin_lookup ttl now id m).1
step ttl now (delete_op id) m = end_lookup id m
step ttl now cleanup_op m = record m { entries = cleanup ttl now m.entries }

unfoldable pub run : ℕ → List (ℕ × Op) → Mapping → Mapping
run ttl [] m = m
run ttl ((now, op) ∷ ops) m = run ttl ops (step ttl now op m)

-- No step is later than the time, and none stores the message anew.
abbrev pub LeavesBy : ℕ → ℕ → List (ℕ × Op) → Type 0
LeavesBy now id [] = ⊤
LeavesBy now id ((t, store_op k chat session name) ∷ ops) =
    (t ≤ now) × (k ≢ id) × LeavesBy now id ops
LeavesBy now id ((t, read_op k) ∷ ops) = (t ≤ now) × LeavesBy now id ops
LeavesBy now id ((t, delete_op k) ∷ ops) = LeavesBy now id ops
LeavesBy now id ((t, cleanup_op) ∷ ops) = (t ≤ now) × LeavesBy now id ops

-- A lookup of the message is still to delete it.
abbrev pub is_deleting : ℕ → List ℕ → Bool
is_deleting id ks = any (λ k. k == id) ks

-- The entry is there and no lookup is to delete it, or it has run out by now and may be gone.
abbrev Remains : ℕ → ℕ → ℕ → Entry → Mapping → Type 0
Remains ttl now id e m =
    ((m.entries id ≡ some e) × (is_deleting id m.deleting ≡ false))
    ⊎ (((m.entries id ≡ some e) ⊎ (m.entries id ≡ none)) × (ttl < now - e.sent_at))

is_deleting-remove :
    (id k : ℕ) (ks : List ℕ) → is_deleting id ks ≡ false → is_deleting id (remove k ks) ≡ false
unfolding remove
is_deleting-remove id k [] h = refl
is_deleting-remove id k (j ∷ ks) h = ground (arith, is_deleting-remove id k ks)

read-Remains :
    (ttl now t k id : ℕ) (e : Entry) (m : Mapping)
    → t ≤ now
    → Remains ttl now id e m
    → Remains ttl now id e (begin_lookup ttl t k m).1
unfolding begin_lookup
read-Remains ttl now t k id e m le (inr (there, old)) = elim (Option-cases (m.entries k)) [
  | inl missing ↦ inr (ground (arith, there), old)
  | inr (x, found) ↦ inr (ground (arith, there), old)
]
read-Remains ttl now t k id e m le (inl (there, kept)) = elim (Bool-cases (k == id)) [
  | inl same ↦ elim (Bool-cases (is_stale ttl t e)) [
    | inl stale ↦ inr (inl (ground arith), omega (arith, ltb→lt ttl (t - e.sent_at) stale))
    | inr fresh ↦ inl (ground arith, ground arith)
  ]
  | inr other ↦ elim (Option-cases (m.entries k)) [
    | inl missing ↦ inl (ground arith, ground arith)
    | inr (x, found) ↦ inl (ground arith, ground arith)
  ]
]

delete-Remains :
    (ttl now k id : ℕ) (e : Entry) (m : Mapping)
    → Remains ttl now id e m
    → Remains ttl now id e (end_lookup k m)
unfolding end_lookup
delete-Remains ttl now k id e m (inr (there, old)) = elim (Bool-cases (is_deleting k m.deleting)) [
  | inl due ↦ inr (ground (arith, there), old)
  | inr no_one ↦ inr (ground (arith, there), old)
]
delete-Remains ttl now k id e m (inl (there, kept)) = elim (Bool-cases (is_deleting k m.deleting)) [
  | inl due ↦ elim (Bool-cases (k == id)) [
    | inl same ↦ absurd (ground arith)
    | inr other ↦ inl (ground arith, ground (arith, is_deleting-remove id k m.deleting kept))
  ]
  | inr no_one ↦ inl (ground arith, ground arith)
]

run-Remains :
    (ttl now id : ℕ) (e : Entry) (ops : List (ℕ × Op)) (m : Mapping)
    → LeavesBy now id ops
    → Remains ttl now id e m
    → Remains ttl now id e (run ttl ops m)
unfolding run step store cleanup
run-Remains ttl now id e [] m l r = r
run-Remains ttl now id e ((t, store_op k chat session name) ∷ ops) m l r =
    run-Remains ttl now id e ops _ l.2 (ground (arith, l.1))
run-Remains ttl now id e ((t, read_op k) ∷ ops) m l r =
    run-Remains ttl now id e ops _ l.1 (read-Remains ttl now t k id e m l.0 r)
run-Remains ttl now id e ((t, delete_op k) ∷ ops) m l r =
    run-Remains ttl now id e ops _ l (delete-Remains ttl now k id e m r)
run-Remains ttl now id e ((t, cleanup_op) ∷ ops) m l r =
    run-Remains ttl now id e ops _ l.1 (ground (arith, l.0))

-- A message that is stored while no lookup of the same id is still to delete it leads to its terminal exactly as
-- long as its lifetime lasts: whatever steps of lookups, cleanups and other messages came between, in
-- any order, as long as none was later than the lookup.
pub lookup-store :
    (ttl sent now id : ℕ) (chat : ChatId) (session name : Text) (ops : List (ℕ × Op)) (m : Mapping)
    → is_deleting id m.deleting ≡ false
    → LeavesBy now id ops
    → (begin_lookup ttl now id
        (run ttl ops (record m { entries = store sent id chat session name m.entries }))).0
      ≡ (if leb (now - sent) ttl
          then some
              (record { session_id = session; session_name = name; chat_id = chat; sent_at = sent })
          else none)
unfolding begin_lookup store
lookup-store ttl sent now id chat session name ops m d l =
    let e : Entry = record {
      session_id = session;
      session_name = name;
      chat_id = chat;
      sent_at = sent;
    } in
    let stored : Mapping = record m { entries = store sent id chat session name m.entries } in
    elim (run-Remains ttl now id e ops stored l (inl (ground arith, d))) [
      | inl (there, _) ↦ ground arith
      | inr (inl there, old) ↦ ground arith
      | inr (inr gone, old) ↦ ground arith
    ]
