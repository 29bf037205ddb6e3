-- ===== src/Exec.antt =====
-- Code that changes the program's state and may throw: the state comes back beside an exception too.
pub mod Triple
use cliot.Prelude.{String, List}
use cliot.Json.{Checked, value, fails}
use cliot.Reporting.Events.{Issue}

-- FlowException (src/flow/exceptions.hpp)
pub record FlowException : Type 0 where
  pub path : String
  pub issues : List Issue
  pub response : String

-- What can be thrown, by the classes that the handlers tell apart: FlowException, inja::InjaError,
-- nlohmann's json::exception, and any other std::exception.
pub data Exn : Type 0 where
  flow : FlowException → Exn
  inja : String → Exn
  json : String → Exn
  other : String → Exn

-- std::exception::what()
unfoldable pub what : Exn → String
what (flow e) = "FlowException"
what (inja m) = m
what (json m) = m
what (other m) = m

-- Why a call never comes back: its thread waits for ever, the process is aborted by an assertion, or
-- the model's bound on nested flows is passed.
pub data Halt : Type 0 where
  waits aborted too_deep : Halt

pub data Outcome {ℓ} (A : Type ℓ) : Type ℓ where
  returns : A → Outcome A
  throws : Exn → Outcome A
  halts : Halt → Outcome A

abbrev pub Exec {ℓ κ} : Type ℓ → Type κ → Type (ℓ ⊔ κ)
Exec W A = W → Outcome A × W

module _ {ℓ κ} {W : Type ℓ} {A : Type κ} where
  abbrev pub pure : A → Exec W A
  pure a w = (returns a, w)

  abbrev pub throw : Exn → Exec W A
  throw e w = (throws e, w)

  abbrev pub halt : Halt → Exec W A
  halt h w = (halts h, w)

  abbrev pub checked : (String → Exn) → Checked A → Exec W A
  checked f (value a) w = (returns a, w)
  checked f (fails m) w = (throws (f m), w)

  -- try { m } catch: the handler gets the exception and the state that the body left.
  abbrev pub handle : Outcome A → (Exn → Exec W A) → Exec W A
  handle (returns a) h w = (returns a, w)
  handle (throws e) h w = h e w
  handle (halts x) h w = (halts x, w)

  unfoldable pub catch : Exec W A → (Exn → Exec W A) → Exec W A
  catch m h w = let (r, w') = m w in handle r h w'

abbrev pub modify {ℓ} : {W : Type ℓ} → (W → W) → Exec W (Unit {0})
modify f w = (returns tt, f w)

module _ {ℓ κ λ'} {W : Type ℓ} {A : Type κ} {B : Type λ'} where
  abbrev pub continue : Outcome A → (A → Exec W B) → Exec W B
  continue (returns a) f w = f a w
  continue (throws e) f w = (throws e, w)
  continue (halts x) f w = (halts x, w)

  infixl 5 ◌>>=◌ ◌>>◌
  unfoldable pub ◌>>=◌ : Exec W A → (A → Exec W B) → Exec W B
  ◌>>=◌ m f w = let (r, w') = m w in continue r f w'

  abbrev pub ◌>>◌ : Exec W A → Exec W B → Exec W B
  m >> n = m >>= λ _. n
