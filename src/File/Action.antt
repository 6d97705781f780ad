-- ===== src/File/Action.antt =====
-- Methods that change an object and may throw.
use kineticio.Prelude.{Bool, true, false, Option, none, some, Result, ok, throw, Error}

abbrev pub Action : Type 0 → Type 0 → Type 0
Action S A = S → Result A × S

-- What follows a step: nothing, if it threw.
abbrev pub after : {S A B : Type 0} → (A → Action S B) → Result A → S → Result B × S
after next (ok a) s = next a s
after next (throw e) s = (throw e, s)

infixl 5 ◌>>=◌ ◌>>◌
abbrev pub ◌>>=◌ : {S A B : Type 0} → Action S A → (A → Action S B) → Action S B
◌>>=◌ step next s = let (r, s') = step s in after next r s'

abbrev pub ◌>>◌ : {S B : Type 0} → Action S (Unit {0}) → Action S B → Action S B
step >> next = step >>= λ _. next

abbrev pub return : {S A : Type 0} → A → Action S A
return a s = (ok a, s)

abbrev pub raise : {S A : Type 0} → Error → Action S A
raise e s = (throw e, s)

-- An action, if the test holds.
abbrev pub when : {S : Type 0} → Bool → Action S (Unit {0}) → Action S (Unit {0})
when b step = elim b [ true ↦ step | false ↦ return tt ]

-- A method with a loop on fuel: `none` if the fuel runs out.
abbrev pub Loop : Type 0 → Type 0 → Type 0
Loop S A = S → Option (Result A × S)

abbrev pub done : {S A : Type 0} → Action S A → Loop S A
done step s = some (step s)

abbrev pub then_after : {S A B : Type 0} → (A → Loop S B) → Result A → Loop S B
then_after next (ok a) s = next a s
then_after next (throw e) s = some (throw e, s)

-- A step, and the loop that follows it.
abbrev pub before : {S A B : Type 0} → Action S A → (A → Loop S B) → Loop S B
before step next s = let (r, s') = step s in then_after next r s'

-- A loop, and the steps that follow it.
abbrev pub finally :
    {S A B : Type 0} → (A → Loop S B) → Option (Result A × S) → Option (Result B × S)
finally next none = none
finally next (some (r, s)) = then_after next r s
