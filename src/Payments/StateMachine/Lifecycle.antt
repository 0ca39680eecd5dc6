-- ===== src/Payments/StateMachine/Lifecycle.antt =====
-- The lifecycle that the transition table describes, as a relation, and what the check makes of it.
use crm_with_blockchain_rag.Base.{ℕ, suc, ◌+◌, ◌≤◌, ◌≡◌, refl, ◌↔◌, ◌⊎◌, inl, inr, ok, arith}
use crm_with_blockchain_rag.Payments.StateMachine.{
  PaymentStatus, pending, confirming, completed, failed, refunded, expired, assert_transition,
}

-- The arrows of the comment above the table.
pub data Move : PaymentStatus → PaymentStatus → Type 0 where
  detected : Move pending confirming
  expires : Move pending expired
  rejected : Move pending failed
  settled : Move confirming completed
  dropped : Move confirming failed
  returned : Move completed refunded

Move-accepted : {a b : PaymentStatus} → Move a b → assert_transition a b ≡ ok tt
unfolding assert_transition
Move-accepted detected = refl
Move-accepted expires = refl
Move-accepted rejected = refl
Move-accepted settled = refl
Move-accepted dropped = refl
Move-accepted returned = refl

same_accepted : (a : PaymentStatus) → assert_transition a a ≡ ok tt
unfolding assert_transition
same_accepted pending = refl
same_accepted confirming = refl
same_accepted completed = refl
same_accepted failed = refl
same_accepted refunded = refl
same_accepted expired = refl

accepted_Move : (a b : PaymentStatus) → assert_transition a b ≡ ok tt → (a ≡ b) ⊎ Move a b
unfolding assert_transition
accepted_Move pending pending h = inl refl
accepted_Move pending confirming h = inr detected
accepted_Move pending failed h = inr rejected
accepted_Move pending expired h = inr expires
accepted_Move confirming confirming h = inl refl
accepted_Move confirming completed h = inr settled
accepted_Move confirming failed h = inr dropped
accepted_Move completed completed h = inl refl
accepted_Move completed refunded h = inr returned
accepted_Move failed failed h = inl refl
accepted_Move refunded refunded h = inl refl
accepted_Move expired expired h = inl refl
accepted_Move _ _ h = cc

-- The check passes exactly when the status stays or moves along an arrow of the lifecycle.
pub assert_transition_iff :
    (a b : PaymentStatus) → (assert_transition a b ≡ ok tt) ↔ ((a ≡ b) ⊎ Move a b)
assert_transition_iff a b =
    (accepted_Move a b, λ h. elim h [ inl e ↦ rw e (same_accepted b) | inr m ↦ Move-accepted m ])

-- How far a status is along the lifecycle.
abbrev stage : PaymentStatus → ℕ
stage pending = 0
stage confirming = 1
stage completed = 2
stage failed = 3
stage refunded = 3
stage expired = 3

-- A run of the lifecycle and the number of its moves.
pub data Run : PaymentStatus → ℕ → PaymentStatus → Type 0 where
  stop : {a : PaymentStatus} → Run a 0 a
  move : {a b c : PaymentStatus} {n : ℕ} → Move a b → Run b n c → Run a (suc n) c

Move-stage : {a b : PaymentStatus} → Move a b → stage a + 1 ≤ stage b
Move-stage detected = omega arith
Move-stage expires = omega arith
Move-stage rejected = omega arith
Move-stage settled = omega arith
Move-stage dropped = omega arith
Move-stage returned = omega arith

Run-stage : {a b : PaymentStatus} {n : ℕ} → Run a n b → stage a + n ≤ stage b
Run-stage stop = omega arith
Run-stage (move m r) = omega (arith, Move-stage m, Run-stage r)

stage-le : (a : PaymentStatus) → stage a ≤ 3
stage-le pending = omega arith
stage-le _ = omega arith

-- No payment makes more than three moves, so a lifecycle never comes back to a status.
pub Run-le : {a b : PaymentStatus} {n : ℕ} → Run a n b → n ≤ 3
Run-le {b} r = omega (arith, Run-stage r, stage-le b)

Run-stuck : {a b : PaymentStatus} {n : ℕ} → stage a ≡ 3 → Run a n b → a ≡ b
Run-stuck e stop = refl
Run-stuck e (move {b} m r) = absurd (omega (arith, Move-stage m, stage-le b))

-- A refund ends a run that went through detection and settlement, in this order.
pub refund_path : {n : ℕ} → Run pending n refunded → n ≡ 3
refund_path (move detected (move settled (move returned r))) = omega (arith, Run-stage r)
refund_path (move detected (move dropped r)) = cc (Run-stuck refl r)
refund_path (move expires r) = cc (Run-stuck refl r)
refund_path (move rejected r) = cc (Run-stuck refl r)
