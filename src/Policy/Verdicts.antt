-- ===== src/Policy/Verdicts.antt =====
-- What decides a verdict of evaluate_action (kin-node/kin/policy/evaluator.py).
use kin_gateway.Prelude.{
  String, ◌≡◌, refl, ◌≢◌, ◌↔◌, ◌⊎◌, inl, inr, true, false, Option, none, some, arith, if◌then◌else◌,
  Bool-cases, Result, ok,
}
use kin_gateway.Json.{Members, lookup}
use kin_gateway.Policy.Evaluator.{
  PolicyDecision, allowed, requires_approval, PolicyResult, PolicyFault, risk_of_class,
  boundary_denies, not_expired, context_session, request_for, evaluate_action,
}
use kin_gateway.Schemas.Approvals.{
  ActionClass, informational_relay, session_participation, artifact_receipt, workspace_read,
  workspace_write, shell_network_external, approve_once, deny, always_allow_bounded,
  ApprovalRequest, ApprovalDecision,
}
use kin_gateway.Schemas.Cards.{
  network_deny, network_allow, no_files, read_write_with_approval, shell_deny,
  shell_approval_required, AgentBoundaries, always_allow, AgentCard,
}
use kin_gateway.Schemas.Timestamp.{is_timestamp, is_timestamp_whole}

-- The boundaries leave room for the class of action.
abbrev pub Permits : AgentBoundaries → ActionClass → Type 0
Permits b shell_network_external =
    (b.shell ≡ shell_approval_required) ⊎ (b.network_access ≡ network_allow)
Permits b workspace_write = b.filesystem ≡ read_write_with_approval
Permits b workspace_read = b.filesystem ≢ no_files
Permits b _ = Unit

-- A prior decision grants the action at the time `now`.
abbrev pub Grants : ApprovalDecision → String → Option String → Type 0
Grants prior now expires =
    ((prior.decision ≡ approve_once) ⊎ (prior.decision ≡ always_allow_bounded))
    × (not_expired now expires ≡ true)

-- The card lets the agent relay information without asking.
abbrev pub RelaysFreely : AgentCard → ActionClass → Type 0
RelaysFreely card class =
    (class ≡ informational_relay) × (card.autonomy.relay_information ≡ always_allow)

Permits-of :
    (card : AgentCard) (class : ActionClass)
    → boundary_denies card class ≡ false
    → Permits card.boundaries class
unfolding boundary_denies
Permits-of card informational_relay h = ground arith
Permits-of card session_participation h = ground arith
Permits-of card artifact_receipt h = ground arith
Permits-of card workspace_read h = ground arith
Permits-of card workspace_write h = ground arith
Permits-of card shell_network_external h = ground arith

denies_of :
    (card : AgentCard) (class : ActionClass)
    → Permits card.boundaries class
    → boundary_denies card class ≡ false
unfolding boundary_denies
denies_of card informational_relay h = refl
denies_of card session_participation h = refl
denies_of card artifact_receipt h = refl
denies_of card workspace_read h = ground arith
denies_of card workspace_write h = ground arith
denies_of card shell_network_external h = ground arith

abbrev pub Granted : Option ApprovalDecision → String → Option String → Type 0
Granted none now expires = ⊥
Granted (some prior) now expires = Grants prior now expires

abbrev pub NotDenied : Option ApprovalDecision → Type 0
NotDenied none = Unit
NotDenied (some prior) = prior.decision ≢ deny

-- What allows an action.
abbrev pub Allows :
    AgentCard → ActionClass → String → Option ApprovalDecision → Option String → Type 0
Allows card class now prior expires =
    Permits card.boundaries class
    × (Granted prior now expires ⊎ (NotDenied prior × RelaysFreely card class))

abbrev pub verdict : PolicyDecision → Result PolicyFault PolicyResult
verdict d = ok (record { decision = d; approval_request = none })

-- The steps after the boundaries allow the action.
after_boundaries :
    (card : AgentCard) (class : ActionClass) (context : Members) (now : String)
    (prior : Option ApprovalDecision) (expires : Option String)
    → evaluate_action card class context now prior expires ≡ verdict allowed
    → Granted prior now expires ⊎ (NotDenied prior × RelaysFreely card class)
unfolding evaluate_action
after_boundaries card class context now none expires h = ground arith
after_boundaries card class context now (some p) expires h = ground arith

allowed_not_denied :
    (card : AgentCard) (class : ActionClass) (context : Members) (now : String)
    (prior : Option ApprovalDecision) (expires : Option String)
    → evaluate_action card class context now prior expires ≡ verdict allowed
    → boundary_denies card class ≡ false
unfolding evaluate_action
allowed_not_denied card class context now prior expires h = ground arith

allows-allowed :
    (card : AgentCard) (class : ActionClass) (context : Members) (now : String)
    (prior : Option ApprovalDecision) (expires : Option String)
    → boundary_denies card class ≡ false
    → Granted prior now expires ⊎ (NotDenied prior × RelaysFreely card class)
    → evaluate_action card class context now prior expires ≡ verdict allowed
unfolding evaluate_action
allows-allowed card class context now none expires b a = ground arith
allows-allowed card class context now (some p) expires b a = ground arith

-- An action is allowed exactly when the card's boundaries leave room for it and either a prior
-- approval grants it and has not expired, or no prior denial stands and the card relays freely.
pub allowed_iff :
    (card : AgentCard) (class : ActionClass) (context : Members) (now : String)
    (prior : Option ApprovalDecision) (expires : Option String)
    → (evaluate_action card class context now prior expires ≡ verdict allowed)
      ↔ Allows card class now prior expires
allowed_iff card class context now prior expires = (
  λ h. (
    Permits-of card class (allowed_not_denied card class context now prior expires h),
    after_boundaries card class context now prior expires h,
  ),
  λ a. allows-allowed card class context now prior expires (denies_of card class a.0) a.1,
)

-- One card's boundaries are at least as tight as another's.
pub record IsTighter (a b : AgentBoundaries) : Type 0 where
  pub files :
      (a.filesystem ≡ b.filesystem)
      ⊎ ((a.filesystem ≡ no_files) ⊎ (b.filesystem ≡ read_write_with_approval))
  pub network : (a.network_access ≡ network_deny) ⊎ (b.network_access ≡ network_allow)
  pub shell : (a.shell ≡ shell_deny) ⊎ (b.shell ≡ shell_approval_required)

Permits-looser :
    (a b : AgentBoundaries) (class : ActionClass)
    → IsTighter a b
    → Permits a class
    → Permits b class
Permits-looser a b informational_relay t p = p
Permits-looser a b session_participation t p = p
Permits-looser a b artifact_receipt t p = p
Permits-looser a b workspace_read t p = ground arith
Permits-looser a b workspace_write t p = ground arith
Permits-looser a b shell_network_external t p = ground arith

-- Tightening a card's boundaries never turns an action that is not allowed into an allowed one.
pub tightening :
    (card : AgentCard) (b : AgentBoundaries) (class : ActionClass) (context : Members)
    (now : String) (prior : Option ApprovalDecision) (expires : Option String)
    → IsTighter b card.boundaries
    → evaluate_action (record card { boundaries = b }) class context now prior expires
      ≡ verdict allowed
    → evaluate_action card class context now prior expires ≡ verdict allowed
tightening card b class context now prior expires t h =
    let a = (allowed_iff (record card { boundaries = b }) class context now prior expires).0 h in
    (allowed_iff card class context now prior expires).1
      (Permits-looser b card.boundaries class t a.0, a.1)

stamped :
    (now : String)
    → is_timestamp (if is_timestamp now then now else "2026-07-23T12:00:00.000Z") ≡ true
stamped now = elim (Bool-cases (is_timestamp now)) [
  | inl good ↦ rw good good
  | inr bad ↦ rw bad is_timestamp_whole
]

-- A request of the card's for the class, with the class's risk and a valid timestamp.
abbrev pub IsRequestOf : AgentCard → ActionClass → ApprovalRequest → Type 0
IsRequestOf card class q =
    (q.agent_id ≡ card.id)
    × (q.action_class ≡ class)
    × (q.risk_label ≡ risk_of_class class)
    × (is_timestamp q.expires_at ≡ true)

request_for_lem :
    (card : AgentCard) (class : ActionClass) (context : Members) (now session : String)
    → IsRequestOf card class (request_for card class context now session)
unfolding request_for
request_for_lem card class context now session = (refl, refl, refl, stamped now)

asked :
    (card : AgentCard) (class : ActionClass) (context : Members) (now : String)
    (prior : Option ApprovalDecision) (expires : Option String) (r : PolicyResult)
    (session : Option String)
    → context_session (lookup context "session_id") ≡ session
    → evaluate_action card class context now prior expires ≡ ok r
    → ((r.decision ≢ requires_approval) × (r.approval_request ≡ none))
      ⊎ ((s : String) × (r.decision ≡ requires_approval)
          × (r.approval_request ≡ some (request_for card class context now s)))
unfolding evaluate_action
asked card class context now none expires r none q h = inl (ground arith)
asked card class context now (some p) expires r none q h = inl (ground arith)
asked card class context now none expires r (some s) q h = ground arith
asked card class context now (some p) expires r (some s) q h = ground arith

-- A result that does not ask the owner carries no request; one that asks carries a request which
-- names the card, the class and the class's risk, and has a valid timestamp.
pub asks_well_formed :
    (card : AgentCard) (class : ActionClass) (context : Members) (now : String)
    (prior : Option ApprovalDecision) (expires : Option String) (r : PolicyResult)
    → evaluate_action card class context now prior expires ≡ ok r
    → ((r.decision ≢ requires_approval) × (r.approval_request ≡ none))
      ⊎ ((q : ApprovalRequest) × (r.decision ≡ requires_approval)
          × (r.approval_request ≡ some q)
          × IsRequestOf card class q)
asks_well_formed card class context now prior expires r h =
    elim (asked card class context now prior expires r _ refl h) [
      | inl settled_one ↦ inl settled_one
      | inr (s, d, q) ↦
          inr (request_for card class context now s, d, q, request_for_lem card class context now s)
    ]
