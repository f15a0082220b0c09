-- ===== src/ControlPlane/Migration/History.antt =====
-- Everything that writes the table of interactions, in any order: the operations of
-- internal/controlplane/repository.go and the imports of internal/controlplane/migration.go.
use roambench.Base.{
  ℕ, ◌≤◌, ◌≡◌, refl, subst, Bool, true, false, ◌||◌, not, ◌⊎◌, inl, inr, Option, [], ◌∷◌, ◌++◌, map,
  any, find, ◌==◌, if◌then◌else◌, arith, Bool-cases, Option-cases, ltb→lt, leb→le,
}
use roambench.Base.Text.{Text, trim_space, is_empty}
use roambench.ControlPlane.Errors.{ok}
use roambench.ControlPlane.Db.{Status, is_pending, Interaction, Db, pure}
use roambench.ControlPlane.Interactions.{Request, at_request}
use roambench.ControlPlane.Interactions.Create.{same_interaction}
use roambench.ControlPlane.Interactions.History.{Step, Step-Follows}
use roambench.ControlPlane.Migration.{
  LegacyCheckpoint, LegacyDecision, LegacyAuditEvent, Snapshot, legacy_status, version_of,
  same_status, is_newer, is_unchanged,
}
use roambench.ControlPlane.Migration.Persists.{
  Persists, Grows, Grows-refl, Grows-trans, Grows-append, Grows-map, Follows-Grows, LetsGrow,
  eq→Grows, LetsGrow-bind, LetsGrow-pure, LetsGrow-each, transact-Grows,
}
use roambench.ControlPlane.Migration.Statements.{add_message, add_response, add_decision}
use roambench.ControlPlane.Migration.Growth.{
  add_message-LetsGrow, add_response-LetsGrow, add_decision-LetsGrow, add_projection-LetsGrow,
  add_audit-LetsGrow,
}
use roambench.ControlPlane.Migration.Import.{
  imported_row, overwritten, overwrite_rows, update_message, create_message, legacy_response,
  legacy_decision, legacy_projection, resolved_row, import_again, import_checkpoint, answer_row,
  answer_rows, resolve_rows, import_decision, import_event, import_all, import_legacy_approvals,
}

same_status-pending : (a b : Status) → same_status a b ≡ true → is_pending a ≡ is_pending b
same_status-pending a b h = ground arith

-- What counts as newer has no lower version, and is closed where the row is.
is_newer-holds :
    (status : Status) (version : ℕ) (old : Interaction)
    → is_newer status version old ≡ true
    → (old.row_version ≤ version) × ((is_pending old.status ≡ true) ⊎ (is_pending status ≡ false))
unfolding is_newer
is_newer-holds status version old h =
    (ground (arith, ltb→lt old.row_version version, leb→le old.row_version version), ground arith)

unchanged-same :
    (user : Text) (old r : Interaction)
    → is_unchanged user old r ≡ true
    → (is_pending r.status ≡ is_pending old.status) × (r.row_version ≡ old.row_version)
unchanged-same user old r h = (same_status-pending r.status old.status (ground arith), ground arith)

module _ (parse_time : Text → Option ℕ) (decimal : ℕ → Text) (now : ℕ) where
  overwritten-Persists :
      (user : Text) (c : LegacyCheckpoint) (old r : Interaction)
      → is_newer (legacy_status c.status).0 (version_of c) old ≡ true
      → is_unchanged user old r ≡ true
      → Persists r (overwritten parse_time decimal now c r)
  unfolding overwritten
  overwritten-Persists user c old r n u =
      let (le, closes) = is_newer-holds (legacy_status c.status).0 (version_of c) old n in
      let (p, v) = unchanged-same user old r u in
      (refl, omega (arith, le, v), ground (arith, closes, p))

  overwrite_rows-LetsGrow :
      (user : Text) (c : LegacyCheckpoint) (old : Interaction)
      → is_newer (legacy_status c.status).0 (version_of c) old ≡ true
      → LetsGrow (overwrite_rows parse_time decimal now user c old)
  unfolding overwrite_rows
  overwrite_rows-LetsGrow user c old n db db' k h =
      let test = is_unchanged user old in
      let f = overwritten parse_time decimal now c in
      let same : map (λ r. if test r then f r else r) db.interactions ≡ db'.interactions =
        ground arith in
      subst (Grows db.interactions) same
        (Grows-map test f db.interactions (λ r. overwritten-Persists user c old r n))

  told :
      (user : Text) (c : LegacyCheckpoint) (b : Bool)
      → LetsGrow (if b then pure tt else add_message (update_message parse_time decimal now user c))
  told user c true = LetsGrow-pure tt
  told user c false = add_message-LetsGrow (update_message parse_time decimal now user c)

  import_again-LetsGrow :
      (user : Text) (c : LegacyCheckpoint) → LetsGrow (import_again parse_time decimal now user c)
  unfolding import_again
  import_again-LetsGrow user c db db' a h =
      elim (Option-cases (find (at_request user c.id) db.interactions)) [
        | inl missing ↦ absurd (ground arith)
        | inr (old, found) ↦
            elim (Bool-cases (is_newer (legacy_status c.status).0 (version_of c) old)) [
              | inr older ↦ eq→Grows db db' (ground arith)
              | inl newer ↦
                  LetsGrow-bind (overwrite_rows parse_time decimal now user c old)
                    (λ affected.
                      if not (affected == 1)
                      then pure tt
                      else add_message (update_message parse_time decimal now user c))
                    (overwrite_rows-LetsGrow user c old newer)
                    (λ affected. told user c (not (affected == 1))) db db' a (ground arith)
            ]
      ]

  import_checkpoint-LetsGrow :
      (user : Text) (c : LegacyCheckpoint)
      → LetsGrow (import_checkpoint parse_time decimal now user c)
  unfolding import_checkpoint
  import_checkpoint-LetsGrow user c db db' a h =
      let r = imported_row parse_time decimal now user c in
      elim (Bool-cases (any (same_interaction r) db.interactions)) [
        | inl stands ↦ import_again-LetsGrow user c db db' a (ground arith)
        | inr fresh ↦
            let mid = record db { interactions = db.interactions ++ r ∷ [] } in
            Grows-trans db.interactions mid.interactions db'.interactions
              (Grows-append db.interactions (r ∷ []))
              (add_message-LetsGrow (create_message parse_time decimal now user c) mid db' a
                (ground arith))
      ]

  answer_row-LetsGrow :
      (user : Text) (d : LegacyDecision) (r : Interaction)
      → LetsGrow (answer_row parse_time decimal now user d r)
  unfolding answer_row
  answer_row-LetsGrow user d r =
      LetsGrow-bind (add_response (legacy_response parse_time decimal now user d r))
        (λ _. add_decision (legacy_decision parse_time decimal now d r))
        (add_response-LetsGrow (legacy_response parse_time decimal now user d r))
        (λ _. add_decision-LetsGrow (legacy_decision parse_time decimal now d r))

  answer_rows-LetsGrow :
      (user : Text) (d : LegacyDecision) → LetsGrow (answer_rows parse_time decimal now user d)
  unfolding answer_rows
  answer_rows-LetsGrow user d db db' a h =
      elim (Option-cases (find (at_request user d.checkpoint_id) db.interactions)) [
        | inl missing ↦ eq→Grows db db' (ground arith)
        | inr (r, found) ↦ answer_row-LetsGrow user d r db db' a (ground arith)
      ]

  resolve_rows-LetsGrow :
      (user : Text) (d : LegacyDecision) → LetsGrow (resolve_rows parse_time decimal now user d)
  unfolding resolve_rows
  resolve_rows-LetsGrow user d db db' a h =
      let test = at_request user d.checkpoint_id in
      let f = resolved_row parse_time decimal now d in
      let same : map (λ r. if test r then f r else r) db.interactions ≡ db'.interactions =
        ground arith in
      subst (Grows db.interactions) same
        (Grows-map test f db.interactions (λ r hit. (refl, omega arith, inr refl)))

  import_decision-LetsGrow :
      (user : Text) (d : LegacyDecision) → LetsGrow (import_decision parse_time decimal now user d)
  unfolding import_decision
  import_decision-LetsGrow user d = LetsGrow-bind _ _ (answer_rows-LetsGrow user d) λ _.
      LetsGrow-bind _ _ (resolve_rows-LetsGrow user d)
        λ _. add_projection-LetsGrow (legacy_projection parse_time decimal now user d)

  import_event-LetsGrow :
      (user : Text) (e : LegacyAuditEvent) → LetsGrow (import_event parse_time decimal now user e)
  unfolding import_event
  import_event-LetsGrow user e = elim (Bool-cases (is_empty (trim_space e.checkpoint_id))) [
    | inl blank ↦ rw blank (LetsGrow-pure tt)
    | inr named ↦ rw named (add_audit-LetsGrow _)
  ]

  import_all-LetsGrow :
      (user : Text) (s : Snapshot) → LetsGrow (import_all parse_time decimal now user s)
  unfolding import_all
  import_all-LetsGrow user s =
      LetsGrow-bind _ _ (LetsGrow-each _ s.checkpoints (import_checkpoint-LetsGrow user)) λ _.
        LetsGrow-bind _ _ (LetsGrow-each _ s.decisions (import_decision-LetsGrow user)) λ _.
          LetsGrow-bind _ _ (LetsGrow-each _ s.audit_events (import_event-LetsGrow user))
            λ _. LetsGrow-pure (ok tt)

  import_legacy_approvals-Grows :
      (s : Snapshot) (db : Db)
      → Grows db.interactions (import_legacy_approvals parse_time decimal now s db).1.interactions
  unfolding import_legacy_approvals
  import_legacy_approvals-Grows s db =
      elim (Bool-cases (is_empty (trim_space s.username) || is_empty (trim_space s.source_hash))) [
        | inl blank ↦ rw blank (Grows-refl db.interactions)
        | inr named ↦ rw named (transact-Grows _ db (import_all-LetsGrow (trim_space s.username) s))
      ]

-- One operation, or one import of any snapshot.
pub data Write (digest : Request → Text) (t u : Db) : Type 0 where
  by_request : Step digest t u → Write digest t u
  by_import :
      (parse_time : Text → Option ℕ) (decimal : ℕ → Text) (now : ℕ) (s : Snapshot)
      → u ≡ (import_legacy_approvals parse_time decimal now s t).1
      → Write digest t u

pub data Reach (digest : Request → Text) (s : Db) : Db → Type 0 where
  here : Reach digest s s
  next : {t u : Db} → Reach digest s t → Write digest t u → Reach digest s u

Write-Grows :
    {digest : Request → Text} {t u : Db} → Write digest t u → Grows t.interactions u.interactions
Write-Grows {digest} {t} {u} (by_request s) =
    Follows-Grows t.interactions u.interactions (Step-Follows s)
Write-Grows {digest} {t} {u} (by_import parse_time decimal now s e) =
    rw e (import_legacy_approvals-Grows parse_time decimal now s t)

-- However requests are opened, answered, cancelled and expired and boards are imported, by any users and in any
-- order, each row of interactions stays in its place with its id, user, session, risk class, response
-- schema and times of creation and expiry, its version never falls, and once it is resolved,
-- expired or cancelled it is never pending again.
pub Reach-Grows :
    {digest : Request → Text} {t u : Db} → Reach digest t u → Grows t.interactions u.interactions
Reach-Grows {t} here = Grows-refl t.interactions
Reach-Grows {t} {u} (next {t = m} r w) =
    Grows-trans t.interactions m.interactions u.interactions (Reach-Grows r) (Write-Grows w)
