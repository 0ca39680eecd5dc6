-- ===== src/Payments/StateMachine.antt =====
-- crm-backend/src/modules/payments/payment-state-machine.ts: the transition table and its check.
pub mod Lifecycle
use crm_with_blockchain_rag.Base.{
  Bool, true, false, Option, none, some, List, [], ◌∷◌, ◌&&◌, any, find, Result, ok, err,
  if◌then◌else◌,
}

pub data PaymentStatus : Type 0 where
  pending confirming completed failed refunded expired : PaymentStatus

abbrev pub status_eq : PaymentStatus → PaymentStatus → Bool
status_eq pending pending = true
status_eq confirming confirming = true
status_eq completed completed = true
status_eq failed failed = true
status_eq refunded refunded = true
status_eq expired expired = true
status_eq _ _ = false

-- The exceptions of `assertTransition`, by their message.
pub data TransitionError : Type 0 where
  terminal_state invalid_transition : PaymentStatus → PaymentStatus → TransitionError

pub record Transition : Type 0 where
  pub from : List PaymentStatus
  pub to : PaymentStatus

abbrev valid_transitions : List Transition
valid_transitions =
    record { from = pending ∷ []; to = confirming }
    ∷ record { from = pending ∷ []; to = expired }
    ∷ record { from = pending ∷ []; to = failed }
    ∷ record { from = confirming ∷ []; to = completed }
    ∷ record { from = confirming ∷ []; to = failed }
    ∷ record { from = completed ∷ []; to = refunded }
    ∷ []

abbrev terminal_states : List PaymentStatus
terminal_states = completed ∷ failed ∷ refunded ∷ expired ∷ []

-- `VALID_TRANSITIONS.find(t => t.to === to && t.from.includes(from))`
allowed : PaymentStatus → PaymentStatus → Option Transition
allowed from to =
    find (λ t. status_eq t.to to && any (λ s. status_eq s from) t.from) valid_transitions

unfoldable pub is_terminal : PaymentStatus → Bool
is_terminal status = any (λ s. status_eq s status) terminal_states

unfoldable pub can_accept_deposit : PaymentStatus → Bool
can_accept_deposit status = status_eq status pending

unfoldable pub assert_transition : PaymentStatus → PaymentStatus → Result TransitionError (Unit {0})
unfolding allowed is_terminal
assert_transition from to = if status_eq from to then ok tt else elim (allowed from to) [
  | some _ ↦ ok tt
  | none ↦
      if is_terminal from then err (terminal_state from to) else err (invalid_transition from to)
]
