-- ===== src/ControlPlane/Interactions/Tests.antt =====
-- One request from its creation to its answer.
use mathlib.Core.Bool.{xor}
use roambench.Base.{
  ℕ, ◌+◌, ◌≡◌, ◌≢◌, refl, true, false, ◌⊎◌, some, none, [], ◌∷◌, ◌++◌, arith, find,
}
use roambench.Base.Text.{
  Text, codes, text_eq, trim_space, to_lower, rune_count, sort_strings, contains,
}
use roambench.ControlPlane.Errors.{ok, err, conflict}
use roambench.ControlPlane.Risk.{normalize_risk_class, is_high_risk}
use roambench.ControlPlane.Db.{Interaction, RespondInput, Response, Db}
use roambench.ControlPlane.Interactions.{
  normalized_strings, CreateInput, approve_session, validate_create, validate_response, Request,
  to_create, to_respond, to_cancel, at_request, close_interaction, insert_audit, insert_outbox,
}
use roambench.ControlPlane.Interactions.Respond.{
  expire_interaction, trimmed, actor_scope, at_key, new_response, store_response, accepts,
  respond_new, respond, insert_response, insert_decision, insert_response_key, insert_projection,
}
use roambench.ControlPlane.Interactions.Create.{
  hardened, new_interaction, same_interaction, remember, opened, insert_interaction,
  create_interaction,
}
use roambench.ControlPlane.Interactions.Answer.{IsAnswer}
use roambench.ControlPlane.Interactions.Replay.{hash_of, respond-ok, respond_again}
use roambench.ControlPlane.Interactions.Guards.{
  IsOverdue, SameAnswers, respond_refused, respond-high_risk,
}

abbrev empty_db : Db
empty_db = record {
  interactions = [];
  responses = [];
  decisions = [];
  audit_events = [];
  outbox_events = [];
  response_keys = [];
  post_keys = [];
  projections = [];
}

-- A digest that tells the requests below apart.
abbrev digest : Request → Text
digest (to_create r) = 0 ∷ r.title
digest (to_respond id i) = 1 ∷ id ++ i.action
digest (to_cancel id version reason) = 2 ∷ id ++ reason

abbrev ids_from : ℕ → ℕ → Text
ids_from first k = (first + k) ∷ []

-- A risky command, to be approved by 100.
abbrev deploy : CreateInput
deploy = record {
  username = codes "ann";
  checkpoint_id = [];
  task_id = codes "t1";
  runtime_id = codes "r1";
  session_id = codes "s1";
  adapter_kind = codes "codex";
  vendor_request_id = codes "v1";
  request_kind = codes "command";
  risk_class = codes "R2";
  title = codes "Deploy";
  summary = [];
  preview = [];
  artifact_refs = [];
  allowed_actions =
      codes "reject" ∷ codes " approve " ∷ codes "approve_session" ∷ codes "approve" ∷ [];
  response_schema = record {
    kind = codes "action";
    options = [];
    min_selections = 0;
    max_selections = 0;
    max_feedback_length = 10;
    allow_custom_text = false;
  };
  ui_hints = [];
  expires_at = 100;
  input_hash = codes "h";
  actor_scope = [];
  idempotency_key = [];
}

abbrev deploy_row : Interaction
deploy_row = record (new_interaction (b'a' ∷ []) 5 deploy) {
  username = codes "ann";
  checkpoint_id = [];
  task_id = codes "t1";
  runtime_id = codes "r1";
  session_id = codes "s1";
  adapter_kind = codes "codex";
  vendor_request_id = codes "v1";
  request_kind = codes "command";
  risk_class = codes "high";
  title = codes "Deploy";
  summary = [];
  preview = [];
  allowed_actions = codes "approve" ∷ codes "reject" ∷ [];
  input_hash = codes "h";
}

-- The risk is put in the runtime's words, and session-wide approval is taken out.
deploy_created : (create_interaction digest (ids_from b'a') 5 deploy empty_db).0 ≡ ok deploy_row
unfolding create_interaction hardened normalize_risk_class is_high_risk validate_create
    normalized_strings sort_strings contains insert_interaction opened remember insert_audit
    insert_outbox same_interaction trim_space text_eq to_lower xor
deploy_created = refl

abbrev open_db : Db
open_db = record empty_db { interactions = deploy_row ∷ [] }

abbrev approve : RespondInput
approve = record {
  action = codes "approve";
  selected_option_ids = [];
  feedback = [];
  actor = codes "ann";
  device_id = codes "phone";
  auth_evidence = [];
  expected_row_version = 1;
  idempotency_key = codes "k1";
  input_hash = codes "h";
}

abbrev approval : Response
approval = new_response (ids_from b'p') 50 (codes "ann") deploy_row approve

-- The tables after the approval at 50.
abbrev approved_db : Db
approved_db = (respond digest (ids_from b'p') 50 (codes "ann") (codes "a") approve open_db).1

approve_ok :
    respond digest (ids_from b'p') 50 (codes "ann") (codes "a") approve open_db
    ≡ (ok (approval, false), approved_db)
unfolding respond respond_new accepts validate_response is_high_risk normalize_risk_class to_lower
    store_response insert_response insert_decision insert_response_key insert_projection
    close_interaction insert_audit insert_outbox expire_interaction trim_space text_eq contains
    rune_count
approve_ok = refl

-- At 100 it is too late, and the request is expired instead.
approve_late :
    (respond digest (ids_from b'p') 100 (codes "ann") (codes "a") approve open_db).0 ≡ err conflict
unfolding respond respond_new expire_interaction close_interaction insert_audit insert_outbox
    trim_space text_eq
approve_late = refl

respond-ok_example :
    (find
        (at_key
          (trim_space (codes "ann"))
          (actor_scope (trimmed approve))
          (trim_space approve.idempotency_key))
        open_db.response_keys
      ≡ none)
    × ((r : Interaction) × IsAnswer
          (hash_of digest (codes "ann") (codes "a") approve)
          (ids_from b'p')
          50
          (trim_space (codes "ann"))
          (trim_space (codes "a"))
          (trimmed approve)
          approval
          open_db
          approved_db
          r)
respond-ok_example =
    respond-ok digest (codes "ann") (codes "a") approve (ids_from b'p') 50 approval open_db
      approved_db approve_ok

respond_again_example :
    respond digest (ids_from b'x') 70 (codes "ann") (codes "a") approve approved_db
    ≡ (ok (approval, true), approved_db)
respond_again_example =
    respond_again digest (codes "ann") (codes "a") approve (ids_from b'p') (ids_from b'x') 50 70
      approval open_db approved_db approve_ok

abbrev reject : RespondInput
reject = record approve { action = codes "reject" }

digests_differ :
    hash_of digest (codes "ann") (codes "a") approve
    ≢ hash_of digest (codes "ann") (codes "a") reject
unfolding trim_space
digests_differ e = ground arith

abbrev stale : RespondInput
stale = record approve { expected_row_version = 2 }

stale_refused :
    respond digest (ids_from b'p') 50 (codes "ann") (codes "a") stale open_db
    ≡ (err conflict, open_db)
unfolding respond respond_new accepts expire_interaction trim_space text_eq
stale_refused = refl

respond_refused_example :
    (open_db ≡ open_db)
    ⊎ ((conflict ≡ conflict)
        × IsOverdue 50 (trim_space (codes "ann")) (trim_space (codes "a")) open_db
        × SameAnswers open_db open_db)
respond_refused_example =
    respond_refused digest (ids_from b'p') 50 (codes "ann") (codes "a") stale open_db open_db
      conflict stale_refused

deploy_found :
    find (at_request (trim_space (codes "ann")) (trim_space (codes "a"))) open_db.interactions
    ≡ some deploy_row
unfolding trim_space text_eq
deploy_found = refl

deploy_risky : is_high_risk deploy_row.risk_class ≡ true
unfolding is_high_risk normalize_risk_class to_lower trim_space text_eq
deploy_risky = refl

respond-high_risk_example : approval.input.action ≢ approve_session
respond-high_risk_example =
    respond-high_risk digest (ids_from b'p') 50 (codes "ann") (codes "a") approve approval open_db
      approved_db deploy_row approve_ok deploy_found deploy_risky
