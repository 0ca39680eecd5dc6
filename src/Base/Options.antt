-- ===== src/Base/Options.antt =====
-- Optional values: a field that is sent or not.
use mathlib.Core.Option.{Option, none, some}

-- The value that is sent, or the old one.
abbrev pub given {ℓ} : {A : Type ℓ} → Option A → A → A
given none old = old
given (some a) old = a

abbrev pub given_too {ℓ} : {A : Type ℓ} → Option A → Option A → Option A
given_too none old = old
given_too (some a) old = some a
