-- ===== src/Artifacts/Stored.antt =====
-- Storing and loading artifacts (kin-node/kin/artifacts/vault.py).
use Prim.Native.String.{◌++◌ as concat}
use kin_gateway.Prelude.{
  ◌≤◌, String, ◌≡◌, refl, ◌↔◌, inl, inr, true, false, not, ◌||◌, Option, none, some, [], ◌∷◌, ◌++◌,
  arith, str_eq, eq_iff, eq_refl, ltb, Bool-cases, Option-cases, is_some, or_else, find_first_snoc,
  find_first_append, truthy, Result, ok,
}
use kin_gateway.Artifacts.Vault.{
  NewArtifact, ArtifactMetadata, VaultError, byte_count, find_artifact, optional_text, meta_payload,
  read_metadata, row_metadata, get_artifact_metadata, artifact_row, returned_metadata,
  insert_artifact, store_named, store_sized, store_artifact, check_bytes, row_bytes,
  load_artifact_bytes,
}
use kin_gateway.Json.{object}
use kin_gateway.Storage.Services.{Services, Stamp}
use kin_gateway.Storage.Tables.{ArtifactRow, Db, has_session}

-- The id of a new artifact.
abbrev pub new_id : Stamp → NewArtifact → String
new_id st a = or_else a.artifact_id (concat "art_" st.uuid)

insert_new :
    (sv : Services) (st : Stamp) (a : NewArtifact) (id : String) (db : Db)
    → find_artifact db id ≡ none
    → has_session db a.session_id ≡ true
    → insert_artifact sv st a id db ≡ (
      ok (returned_metadata (artifact_row sv st a id) a),
      record db { artifacts = db.artifacts ++ artifact_row sv st a id ∷ [] },
    )
unfolding insert_artifact
insert_new sv st a id db free there = rw (insert_artifact, free, there) refl

store_free :
    (sv : Services) (st : Stamp) (a : NewArtifact) (id : String) (o : Option ArtifactRow) (db : Db)
    → o ≡ none
    → store_named sv st a id o db ≡ insert_artifact sv st a id db
unfolding store_named
store_free sv st a id none db free = refl
store_free sv st a id (some r) db free = cc

store_new :
    (sv : Services) (st : Stamp) (a : NewArtifact) (given : Option String) (db : Db)
    → find_artifact db (or_else given (concat "art_" st.uuid)) ≡ none
    → store_sized sv st a given db
      ≡ insert_artifact sv st a (or_else given (concat "art_" st.uuid)) db
unfolding store_sized
store_new sv st a none db free = refl
store_new sv st a (some id) db free = store_free sv st a id (find_artifact db id) db free

found_row :
    (sv : Services) (st : Stamp) (a : NewArtifact) (id : String) (db : Db)
    → find_artifact db id ≡ none
    → find_artifact (record db { artifacts = db.artifacts ++ artifact_row sv st a id ∷ [] }) id
      ≡ some (artifact_row sv st a id)
unfolding find_artifact artifact_row
found_row sv st a id db free =
    find_first_snoc (λ (r : ArtifactRow). str_eq r.artifact_id id) db.artifacts
      (artifact_row sv st a id) free (eq_refl id)

read_fields :
    (r : ArtifactRow) (a : NewArtifact)
    → read_metadata r (some (object (meta_payload a)))
      ≡ ok (record (returned_metadata r a) {
        relative_target_path = optional_text a.relative_target_path;
      })
unfolding read_metadata meta_payload returned_metadata
read_fields r a = refl

loaded_back :
    (sv : Services) (st : Stamp) (a : NewArtifact) (id : String)
    → row_bytes sv (some (artifact_row sv st a id)) ≡ ok a.raw_bytes
unfolding row_bytes check_bytes artifact_row
loaded_back sv st a id =
    rw (sv.unseal-seal st.nonce a.raw_bytes, eq_refl (sv.sha256 a.raw_bytes)) refl

read_back :
    (sv : Services) (st : Stamp) (a : NewArtifact) (id : String)
    → sv.loads (sv.dumps (object (meta_payload a))) ≡ some (object (meta_payload a))
    → truthy (sv.dumps (object (meta_payload a))) ≡ true
    → row_metadata sv (some (artifact_row sv st a id))
      ≡ ok (record (returned_metadata (artifact_row sv st a id) a) {
        relative_target_path = optional_text a.relative_target_path;
      })
unfolding row_metadata artifact_row
read_back sv st a id reads present = rw (present, reads) (read_fields (artifact_row sv st a id) a)

-- What storing gave: the metadata, and the database afterwards.
pub record IsKept (sv : Services) (a : NewArtifact) (id : String)
    (r : Result VaultError ArtifactMetadata × Db) : Type 0 where
  pub metadata : ArtifactMetadata
  pub stored_as : r.0 ≡ ok metadata
  pub named : metadata.artifact_id ≡ id
  pub bytes : load_artifact_bytes sv r.1 id ≡ ok a.raw_bytes
  pub later :
      get_artifact_metadata sv r.1 id
      ≡ ok (record metadata { relative_target_path = optional_text a.relative_target_path })

-- An artifact of at most `max_bytes` bytes, of a session that exists and under an id that is free,
-- is stored: loading its id gives its bytes, and the metadata read back is the metadata that
-- storing returned, with the target path, which storing leaves out. The metadata's JSON is read
-- back as it was written, and is no empty text.
pub stored_artifact_loads :
    (sv : Services) (st : Stamp) (a : NewArtifact) (db : Db)
    → byte_count a.raw_bytes ≤ a.max_bytes
    → find_artifact db (new_id st a) ≡ none
    → has_session db a.session_id ≡ true
    → sv.loads (sv.dumps (object (meta_payload a))) ≡ some (object (meta_payload a))
    → truthy (sv.dumps (object (meta_payload a))) ≡ true
    → IsKept sv a (new_id st a) (store_artifact sv st a db)
unfolding store_artifact load_artifact_bytes get_artifact_metadata
stored_artifact_loads sv st a db fits free there reads present =
    let small : ltb a.max_bytes (byte_count a.raw_bytes) ≡ false = ground arith in
    rw
      (
        store_artifact,
        small,
        store_new sv st a a.artifact_id db free,
        insert_new sv st a (new_id st a) db free there,
      )
      (record {
        metadata = returned_metadata (artifact_row sv st a (new_id st a)) a;
        stored_as = refl;
        named = refl;
        bytes =
            rw (load_artifact_bytes, found_row sv st a (new_id st a) db free)
              (loaded_back sv st a (new_id st a));
        later =
            rw (get_artifact_metadata, found_row sv st a (new_id st a) db free)
              (read_back sv st a (new_id st a) reads present);
      })

module _ (sv : Services) (st : Stamp) (a : NewArtifact) (db : Db) (id : String)
    (r : ArtifactRow) where
  insert_keeps :
      (new : String)
      → find_artifact db id ≡ some r
      → find_artifact (insert_artifact sv st a new db).1 id ≡ some r
  unfolding insert_artifact find_artifact
  insert_keeps new found =
      elim (Bool-cases (is_some (find_artifact db new) || not (has_session db a.session_id))) [
        | inl bad ↦ rw (insert_artifact, bad) found
        | inr good ↦
            rw (insert_artifact, good)
              (find_first_append (λ (q : ArtifactRow). str_eq q.artifact_id id) db.artifacts _ r
                found)
      ]

  named_keeps :
      (new : String) (o : Option ArtifactRow)
      → find_artifact db id ≡ some r
      → find_artifact (store_named sv st a new o db).1 id ≡ some r
  unfolding store_named
  named_keeps new none found = insert_keeps new found
  named_keeps new (some q) found = elim (Bool-cases (str_eq q.sha256 (sv.sha256 a.raw_bytes))) [
    | inl same ↦ rw same found
    | inr differs ↦ rw differs found
  ]

  sized_keeps :
      (given : Option String)
      → find_artifact db id ≡ some r
      → find_artifact (store_sized sv st a given db).1 id ≡ some r
  unfolding store_sized
  sized_keeps none found = insert_keeps (concat "art_" st.uuid) found
  sized_keeps (some new) found = named_keeps new (find_artifact db new) found

  -- Storing never changes or removes an artifact that is there, whether it succeeds or not.
  pub store_keeps :
      find_artifact db id ≡ some r → find_artifact (store_artifact sv st a db).1 id ≡ some r
  unfolding store_artifact
  store_keeps found = elim (Bool-cases (ltb a.max_bytes (byte_count a.raw_bytes))) [
    | inl large ↦ rw (store_artifact, large) found
    | inr fits ↦ rw (store_artifact, fits) (sized_keeps a.artifact_id found)
  ]

checked_iff :
    (sv : Services) (r : ArtifactRow) (bytes : String)
    → (row_bytes sv (some r) ≡ ok bytes)
      ↔ ((sv.unseal r.bytes_encrypted ≡ some bytes) × (sv.sha256 bytes ≡ r.sha256))
unfolding row_bytes check_bytes
checked_iff sv r bytes = elim (Option-cases (sv.unseal r.bytes_encrypted)) [
  | inl shut ↦ ground (arith, shut)
  | inr (plain, open_to) ↦ ground (arith, open_to, eq_iff (sv.sha256 plain) r.sha256)
]

-- Bytes are loaded exactly where the id has a row whose ciphertext opens to them and whose SHA-256
-- is theirs.
pub loaded_iff :
    (sv : Services) (db : Db) (id bytes : String)
    → (load_artifact_bytes sv db id ≡ ok bytes) ↔ (
        (r : ArtifactRow) × (find_artifact db id ≡ some r)
        × (sv.unseal r.bytes_encrypted ≡ some bytes)
        × (sv.sha256 bytes ≡ r.sha256))
unfolding load_artifact_bytes row_bytes
loaded_iff sv db id bytes = (
  (λ h. elim (Option-cases (find_artifact db id)) [
    | inl gone ↦ let missing = rw (load_artifact_bytes, gone) at h in cc
    | inr (r, found) ↦
        let (opens, hashes) = (checked_iff sv r bytes).0 (rw (load_artifact_bytes, found) at h) in
        (r, found, opens, hashes)
  ]),
  (λ (r, found, opens, hashes).
      rw (load_artifact_bytes, found) ((checked_iff sv r bytes).1 (opens, hashes))),
)
