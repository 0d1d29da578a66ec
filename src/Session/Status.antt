-- ===== src/Session/Status.antt =====
-- kin-node/kin/session/transition_matrix.py: session statuses and the transitions between them.
-- A status is a plain string in the source; `other` is any string that the matrix does not name.
use kin_gateway.Prelude.{
  ℕ, String, ◌≡◌, ◌↔◌, Bool, true, false, ◌&&◌, List, [], ◌∷◌, arith, str_eq, eq_iff, ◌==◌,
  if◌then◌else◌,
}

pub data Status : Type 0 where
  draft sent queued delivered peer_review needs_clarification accepted active : Status
  awaiting_owner_approval awaiting_peer paused : Status
  completed failed cancelled expired declined : Status
  other : String → Status

-- Two statuses are the same string exactly when their ranks and their unnamed texts agree.
abbrev rank : Status → ℕ
rank draft = 0
rank sent = 1
rank queued = 2
rank delivered = 3
rank peer_review = 4
rank needs_clarification = 5
rank accepted = 6
rank active = 7
rank awaiting_owner_approval = 8
rank awaiting_peer = 9
rank paused = 10
rank completed = 11
rank failed = 12
rank cancelled = 13
rank expired = 14
rank declined = 15
rank (other s) = 16

abbrev unnamed : Status → String
unnamed (other s) = s
unnamed _ = ""

unfoldable pub status_eq : Status → Status → Bool
status_eq s t = rank s == rank t && str_eq (unnamed s) (unnamed t)

-- `status in (…)`; the tests are the same string comparisons.
unfoldable pub status_in : Status → List Status → Bool
unfolding status_eq
status_in s [] = false
status_in s (t ∷ ts) = if status_eq s t then true else status_in s ts

-- VALID_TRANSITIONS, with the empty set for a status that is not a key.
unfoldable pub valid_transitions : Status → List Status
valid_transitions draft = sent ∷ cancelled ∷ expired ∷ []
valid_transitions sent = queued ∷ delivered ∷ accepted ∷ failed ∷ expired ∷ []
valid_transitions queued = delivered ∷ accepted ∷ failed ∷ expired ∷ []
valid_transitions delivered = peer_review ∷ accepted ∷ failed ∷ expired ∷ []
valid_transitions peer_review = accepted ∷ declined ∷ needs_clarification ∷ cancelled ∷ expired ∷ []
valid_transitions needs_clarification = peer_review ∷ cancelled ∷ failed ∷ expired ∷ []
valid_transitions accepted = active ∷ cancelled ∷ expired ∷ []
valid_transitions active =
    awaiting_owner_approval ∷ awaiting_peer ∷ paused ∷ completed ∷ failed ∷ cancelled ∷ expired ∷ []
valid_transitions awaiting_owner_approval = active ∷ paused ∷ failed ∷ cancelled ∷ expired ∷ []
valid_transitions awaiting_peer = active ∷ paused ∷ failed ∷ cancelled ∷ expired ∷ []
valid_transitions paused = active ∷ cancelled ∷ failed ∷ expired ∷ []
valid_transitions _ = []

abbrev pub terminal_states : List Status
terminal_states = completed ∷ failed ∷ cancelled ∷ expired ∷ declined ∷ []

abbrev pub resumable_states : List Status
resumable_states = awaiting_owner_approval ∷ awaiting_peer ∷ paused ∷ []

unfoldable pub is_valid_transition : Status → Status → Bool
unfolding status_in valid_transitions
is_valid_transition current next = status_in next (valid_transitions current)

unfoldable pub is_terminal_state : Status → Bool
unfolding status_in
is_terminal_state status = status_in status terminal_states

unfoldable pub is_resumable_state : Status → Bool
unfolding status_in
is_resumable_state status = status_in status resumable_states

pub status_eq_iff : (s t : Status) → (status_eq s t ≡ true) ↔ (s ≡ t)
unfolding status_eq
status_eq_iff s t = ground (arith, eq_iff (unnamed s) (unnamed t))
