-- ===== src/Artifacts/Vault.antt =====
-- kin-node/kin/artifacts/vault.py, with encrypt_bytes and decrypt_bytes of
-- kin-node/kin/storage/vault.py as the vault's encryption. Bytes stand as texts of the code points 0
-- to 255.
use Prim.Native.String.{◌++◌ as concat}
use kin_gateway.Prelude.{
  ℕ, String, false, not, ◌||◌, Option, none, some, [], ◌∷◌, ◌++◌, str_eq, ltb, if◌then◌else◌,
  is_some, find_first, truthy, Result, ok, err,
}
use kin_gateway.Json.{Json, null, integer, text, object, Members, end, member, lookup}
use kin_gateway.Schemas.Encoding.{str_length}
use kin_gateway.Storage.Services.{Services, Stamp}
use kin_gateway.Storage.Tables.{ArtifactRow, Db, has_session}

-- The arguments of store_artifact.
pub record NewArtifact : Type 0 where
  pub session_id : String
  pub raw_bytes : String
  pub mime_type : String
  pub offered_by : String
  pub preview_policy : String
  pub max_bytes : ℕ
  pub source : String
  pub artifact_id : Option String
  pub relative_target_path : Option String

-- The fields that the metadata's JSON gives have the values that it has.
pub record ArtifactMetadata : Type 0 where
  pub artifact_id : String
  pub session_id : String
  pub sha256 : String
  pub mime_type : String
  pub size_bytes : Json
  pub offered_by : String
  pub preview_policy : Json
  pub created_at : String
  pub source : Json
  pub relative_target_path : Json

pub data VaultError : Type 0 where
  artifact_not_found artifact_too_large artifact_corrupted artifact_id_conflict : VaultError
  -- SQLite refuses the row
  artifact_integrity : VaultError
  -- the metadata is JSON but no object
  artifact_metadata_broken : VaultError

-- len(raw_bytes)
unfoldable pub byte_count : String → ℕ
unfolding str_length
byte_count bytes = str_length bytes

unfoldable pub find_artifact : Db → String → Option ArtifactRow
find_artifact db id = find_first (λ (r : ArtifactRow). str_eq r.artifact_id id) db.artifacts

unfoldable pub optional_text : Option String → Json
optional_text none = null
optional_text (some s) = text s

-- meta_payload
unfoldable pub meta_payload : NewArtifact → Members
unfolding optional_text byte_count
meta_payload a = member "size_bytes" (integer false (byte_count a.raw_bytes)) (
    member "preview_policy" (text a.preview_policy) (
      member "source" (text a.source)
        (member "relative_target_path" (optional_text a.relative_target_path) end)))

-- d.get(key, default)
field_or : Members → String → Json → Json
field_or ms key d = elim (lookup ms key) [ none ↦ d | some v ↦ v ]

metadata_of : ArtifactRow → Json → Json → Json → Json → ArtifactMetadata
metadata_of r size policy source target = record {
  artifact_id = r.artifact_id;
  session_id = r.session_id;
  sha256 = r.sha256;
  mime_type = r.mime_type;
  size_bytes = size;
  offered_by = r.offered_by;
  preview_policy = policy;
  created_at = r.created_at;
  source = source;
  relative_target_path = target;
}

unfoldable pub read_metadata : ArtifactRow → Option Json → Result VaultError ArtifactMetadata
unfolding metadata_of field_or
read_metadata r none =
    ok (metadata_of r (integer false 0) (text "none") (text "adapter_output") null)
read_metadata r (some (object ms)) = ok (
    metadata_of r (field_or ms "size_bytes" (field_or ms "size" (integer false 0)))
      (field_or ms "preview_policy" (text "none")) (field_or ms "source" (text "adapter_output"))
      (field_or ms "relative_target_path" null))
read_metadata r (some j) = err artifact_metadata_broken

unfoldable pub row_metadata : Services → Option ArtifactRow → Result VaultError ArtifactMetadata
unfolding read_metadata
row_metadata sv none = err artifact_not_found
row_metadata sv (some r) =
    read_metadata r (if truthy r.metadata_json then sv.loads r.metadata_json else none)

unfoldable pub get_artifact_metadata : Services → Db → String → Result VaultError ArtifactMetadata
unfolding row_metadata find_artifact
get_artifact_metadata sv db id = row_metadata sv (find_artifact db id)

unfoldable pub artifact_row : Services → Stamp → NewArtifact → String → ArtifactRow
unfolding meta_payload
artifact_row sv st a id = record {
  artifact_id = id;
  session_id = a.session_id;
  sha256 = sv.sha256 a.raw_bytes;
  mime_type = a.mime_type;
  bytes_encrypted = sv.seal st.nonce a.raw_bytes;
  metadata_json = sv.dumps (object (meta_payload a));
  offered_by = a.offered_by;
  created_at = st.now;
}

-- What store_artifact returns for a new row: the target path keeps its default.
unfoldable pub returned_metadata : ArtifactRow → NewArtifact → ArtifactMetadata
unfolding metadata_of byte_count
returned_metadata r a =
    metadata_of r (integer false (byte_count a.raw_bytes)) (text a.preview_policy) (text a.source)
      null

unfoldable pub insert_artifact :
    Services → Stamp → NewArtifact → String → Db → Result VaultError ArtifactMetadata × Db
unfolding artifact_row returned_metadata find_artifact has_session
insert_artifact sv st a id db =
    if is_some (find_artifact db id) || not (has_session db a.session_id)
    then (err artifact_integrity, db)
    else (
      ok (returned_metadata (artifact_row sv st a id) a),
      record db { artifacts = db.artifacts ++ artifact_row sv st a id ∷ [] },
    )

-- For an id that the caller gives.
unfoldable pub store_named :
    Services
    → Stamp
    → NewArtifact
    → String
    → Option ArtifactRow
    → Db
    → Result VaultError ArtifactMetadata × Db
unfolding get_artifact_metadata insert_artifact
store_named sv st a id none db = insert_artifact sv st a id db
store_named sv st a id (some r) db =
    if str_eq r.sha256 (sv.sha256 a.raw_bytes)
    then (get_artifact_metadata sv db id, db)
    else (err artifact_id_conflict, db)

unfoldable pub store_sized :
    Services → Stamp → NewArtifact → Option String → Db → Result VaultError ArtifactMetadata × Db
unfolding store_named insert_artifact find_artifact
store_sized sv st a none db = insert_artifact sv st a (concat "art_" st.uuid) db
store_sized sv st a (some id) db = store_named sv st a id (find_artifact db id) db

-- The stamp's uuid stands for the twelve digits of a fresh id.
unfoldable pub store_artifact :
    Services → Stamp → NewArtifact → Db → Result VaultError ArtifactMetadata × Db
unfolding store_sized byte_count
store_artifact sv st a db =
    if ltb a.max_bytes (byte_count a.raw_bytes)
    then (err artifact_too_large, db)
    else store_sized sv st a a.artifact_id db

unfoldable pub check_bytes : Services → String → Option String → Result VaultError String
check_bytes sv sha none = err artifact_corrupted
check_bytes sv sha (some bytes) =
    if str_eq (sv.sha256 bytes) sha then ok bytes else err artifact_corrupted

unfoldable pub row_bytes : Services → Option ArtifactRow → Result VaultError String
unfolding check_bytes
row_bytes sv none = err artifact_not_found
row_bytes sv (some r) = check_bytes sv r.sha256 (sv.unseal r.bytes_encrypted)

unfoldable pub load_artifact_bytes : Services → Db → String → Result VaultError String
unfolding row_bytes find_artifact
load_artifact_bytes sv db id = row_bytes sv (find_artifact db id)
