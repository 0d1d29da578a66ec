-- ===== src/Artifacts/Examples.antt =====
-- An artifact of a session, and the theorems of the vault at it.
use kin_gateway.Prelude.{◌≡◌, refl, false, none, some, [], ◌∷◌, arith}
use kin_gateway.Artifacts.Stored.{IsKept, stored_artifact_loads, store_keeps}
use kin_gateway.Artifacts.Vault.{
  NewArtifact, byte_count, find_artifact, meta_payload, store_artifact,
}
use kin_gateway.Json.{null, integer, text, object, end, member}
use kin_gateway.Session.Status.{active}
use kin_gateway.Storage.Services.{Services, Stamp}
use kin_gateway.Storage.Tables.{SessionRow, ArtifactRow, Db, has_session}

abbrev services : Services
services = record {
  sha256 = λ s. s;
  loads = λ s. some (
      object (
        member "size_bytes" (integer false 5) (
          member "preview_policy" (text "none") (
            member "source" (text "adapter_output")
              (member "relative_target_path" (text "out/a.txt") end)))));
  dumps = λ j. "{}";
  seal = λ nonce plain. plain;
  unseal = λ token. some token;
  unseal-seal = λ nonce plain. refl;
}

abbrev stamp : Stamp
stamp = record { uuid = "0123456789ab"; now = "2026-07-23T12:00:00Z"; nonce = "n" }

abbrev session_1 : SessionRow
session_1 = record {
  session_id = "s1";
  initiator_username = "alice";
  receiver_username = "bob";
  status = active;
  sender_agent_id = some "a1";
  receiver_agent_id = some "b1";
  turn_limit = 12;
  updated_at = "2026-07-23T11:00:00Z";
  session_type = "ask";
  objective = none;
  runtime_budget_seconds = null;
  artifact_bytes_budget = null;
  cost_budget_estimate = null;
  cumulative_artifact_bytes = 0;
  created_at = "2026-07-23T11:00:00Z";
  expires_at = none;
}

abbrev old_artifact : ArtifactRow
old_artifact = record {
  artifact_id = "old";
  session_id = "s1";
  sha256 = "bytes";
  mime_type = "text/plain";
  bytes_encrypted = "bytes";
  metadata_json = "{}";
  offered_by = "alice";
  created_at = "2026-07-23T11:00:00Z";
}

abbrev vault_db : Db
vault_db = record {
  identity = some "bob";
  contacts = [];
  sessions = session_1 ∷ [];
  session_events = [];
  approvals = [];
  audit_events = [];
  outbound_envelope_queue = [];
  artifacts = old_artifact ∷ [];
  peer_agent_cards = [];
}

abbrev hello : NewArtifact
hello = record {
  session_id = "s1";
  raw_bytes = "hello";
  mime_type = "text/plain";
  offered_by = "alice";
  preview_policy = "none";
  max_bytes = 5;
  source = "adapter_output";
  artifact_id = some "new";
  relative_target_path = some "out/a.txt";
}

stored_artifact_loads_example :
    IsKept services hello "new" (store_artifact services stamp hello vault_db)
unfolding byte_count find_artifact has_session meta_payload
stored_artifact_loads_example =
    stored_artifact_loads services stamp hello vault_db (omega arith) refl refl refl refl

store_keeps_example :
    find_artifact
      (store_artifact services stamp (record hello { artifact_id = some "old" }) vault_db).1
      "old"
    ≡ some old_artifact
unfolding find_artifact
store_keeps_example =
    store_keeps services stamp (record hello { artifact_id = some "old" }) vault_db "old"
      old_artifact refl
