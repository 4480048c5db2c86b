-- ===== src/Prelude/Actions.antt =====
-- `?` on results: chains of fallible computations, and of fallible ones that change a state.

use velocidb.Prelude.Results.{VelociError, Result, ok, err, panic}

-- A computation over the state `S`: a result, and the state that it leaves, errors included.
abbrev pub Action {ℓ} : Type ℓ → Type ℓ → Type ℓ
Action S A = S → Result A × S

-- The rest of a computation, after one that has ended.
abbrev pub continue {ℓ} : {S A B : Type ℓ} → (A → Action S B) → Result A × S → Result B × S
continue f (ok a, s) = f a s
continue f (err e, s) = (err e, s)
continue f (panic, s) = (panic, s)

abbrev pub then_result {ℓ κ} : {A : Type ℓ} {B : Type κ} → Result A → (A → Result B) → Result B
then_result (ok a) f = f a
then_result (err e) f = err e
then_result panic f = panic

-- A result of no effect, as a step of an action.
abbrev pub lift {ℓ} : {S A : Type ℓ} → Result A → Action S A
lift r s = (r, s)

infixl 5 ◌>>=◌ ◌>>◌
abbrev pub ◌>>=◌ {ℓ} : {S A B : Type ℓ} → Action S A → (A → Action S B) → Action S B
(m >>= f) s = continue f (m s)

abbrev pub ◌>>◌ {ℓ} : {S B : Type ℓ} → Action S (Unit {ℓ}) → Action S B → Action S B
(m >> k) s = continue (λ _. k) (m s)

abbrev pub return {ℓ} : {S A : Type ℓ} → A → Action S A
return a s = (ok a, s)

-- An early return with an error, and code that the model's fuel does not reach.
abbrev pub fail {ℓ} : {S A : Type ℓ} → VelociError → Action S A
fail e s = (err e, s)

abbrev pub stop {ℓ} : {S A : Type ℓ} → Action S A
stop s = (panic, s)
