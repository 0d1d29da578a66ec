-- ===== src/Lib.antt =====
-- KIN Gateway: a verification library of the program's decision logic.
--
-- The program has three parts. kin-node is a user's node: its session reducer decides which
-- envelopes and commands move a session, its policy decides which actions an agent may take, and its
-- writers keep both in an SQLite database. kin-relay keeps a directory of users and their mailboxes.
-- kin_gateway is a proxy in front of an A2A agent.
--
-- Which file models which part:
--   Session      kin-node/kin/session/reducer.py and transition_matrix.py. Status has the table of
--                transitions; Reducer.Peer is process_peer_envelope, Reducer.Commands the two command
--                handlers, Reconstruct is reconstruct_session_state, Machine runs sequences of calls.
--                The reducer's state is the record SessionState, its answer a ReducerResult or, where
--                Python raises, a Fault. Acceptance, Conditions, Admission, Steps, Refusals, Replay,
--                Turns and Authority hold the proofs.
--   Schemas      kin-node/kin/schemas.py: messages, cards and approvals as data, and the pattern of
--                timestamps. Encoding is base64url and the content hash, Envelope the wire envelope as
--                pydantic reads it, its signature check and verify_and_build_envelope, Signing is
--                sign_envelope; Verification has the proofs. Json is the JSON values that they carry.
--   Storage      the tables of kin-node/kin/storage/migrations.py as lists of rows, and the fields of
--                vault.py. Other packages (SHA-256, JSON, AES-GCM) are the record Services.
--   Audit        kin-node/kin/audit/writer.py. A call takes the database and returns it with its
--                answer; fresh ids, the clock and nonces are the record Stamp.
--   Transport    kin-node/kin/transport/v11.py. Transitions is the two transition functions. Ingest is
--                ingest_envelope to the commit of the session's status: Model (its answers, the expected
--                participants, the lazy expiry), Bootstrap (the session that a first request creates),
--                Store (steps 3 to 5) and Pipeline (the steps before them); Events, Stages, Authentic,
--                Log, Accepted and Drafts hold the proofs. Queue is retry_outbound_queue: Contacts,
--                Backoff and Retry, with proofs in Spares and Undue.
--   Artifacts    kin-node/kin/artifacts/vault.py (Vault), with proofs in Stored.
--   Registry     kin-node/kin/agent_registry: peer_cards.py (PeerCards) with proofs in Review, and
--                registry.py and availability.py (Local) with proofs in Off and Disabled.
--   Identity     kin-node/kin/identity/auth.py (Auth), with proofs in Signed.
--   Policy       kin-node/kin/policy/evaluator.py (Evaluator) and persistence.py (Store, Record, Decide);
--                Machine runs sequences of the calls that write approvals. Verdicts, SingleUse, Terms, Once,
--                Decided and Pending hold the proofs.
--   Relay        kin-relay/kin_relay/routes.py over the tables of db.py; Machine runs sequences of
--                requests.
--   Gateway      kin_gateway: Headers and Credentials (config.py, upstream/credentials.py), Tracker
--                (sessions.py), Routes, Wire and Proxy (app.py), Admin (admin.py), and Mirror, the fetch of the
--                agent's card (agent_card.py).
--
-- How they interact: a decision of the owner (Policy.Decide) asks the reducer for the move
-- (Session.Reducer.Commands), stores it (Transport) and records itself (Policy.Store, Audit); the
-- reducer's state is rebuilt from the rows that these writers keep (Session.Reconstruct). An envelope
-- from a peer is verified (Schemas), given to the reducer in the state of its session, appended to the
-- log (Audit) and moves the session (Transport.Ingest); a delivery that the queue retries moves its
-- session by a node command. The relay and the gateway share no state with a node.
--
-- Conventions: a raised exception is a value (Result, Fault or none); a write that the code commits is
-- the returned database, and one that it rolls back leaves the database as it was. Every function is
-- structural recursion, so no fuel is needed; numbers are natural numbers, as Python's integers have no
-- bound and none of the modelled ones is negative. Texts for a reader (messages, summaries, reasons)
-- are left out.
--
-- Not modelled: what ingest_envelope does after the commit of the status for a final result and for an
-- artifact that a peer offers (the function of the model is ingest_to_commit, Ingested has a
-- constructor for that point, and the results on whole calls ask that a call ends before it), the
-- sending functions of transport/v11.py, the field validators of the schemas other than those of
-- envelopes, events and times, a stream of the gateway whose body is never read, the mirror's cache and
-- its projection of a card, and the interfaces, processes, files and keys of kin-node. Where a modelled
-- function is outside its model's inputs, its file says so.
pub mod Prelude
pub mod Json
pub mod Session
pub mod Schemas
pub mod Storage
pub mod Audit
pub mod Transport
pub mod Policy
pub mod Relay
pub mod Gateway
pub mod Artifacts
pub mod Registry
pub mod Identity
