-- ===== src/Exec/Triple.antt =====
-- What is known of an action: of its state before, of its result and state after, of what it throws
-- and the state then, and of the ways in which it never comes back.
use cliot.Prelude.{String, ◌≡◌, refl, Bool, true, false, if◌then◌else◌}
use cliot.Json.{Checked, value, fails}
use cliot.Exec.{
  Exn, Halt, Outcome, returns, throws, halts, Exec, pure, throw, checked, handle, catch, continue,
  ◌>>=◌,
}

abbrev pub Post {ℓ κ} :
    {W : Type ℓ} {A : Type κ}
    → (A → W → Type ℓ)
    → (Exn → W → Type ℓ)
    → (Halt → Type ℓ)
    → Outcome A
    → W
    → Type ℓ
Post Q E N (returns a) w = Q a w
Post Q E N (throws e) w = E e w
Post Q E N (halts h) w = N h

pub record Triple {ℓ κ} {W : Type ℓ} {A : Type κ} (P : W → Type ℓ) (m : Exec W A)
    (Q : A → W → Type ℓ) (E : Exn → W → Type ℓ) (N : Halt → Type ℓ) : Type (ℓ ⊔ κ) where
  pub at : (w : W) → P w → Post Q E N (m w).0 (m w).1

module _ {ℓ κ} {W : Type ℓ} {A : Type κ} where
  pub Post-weaken :
      (Q R : A → W → Type ℓ) (E F : Exn → W → Type ℓ) (N M : Halt → Type ℓ) (r : Outcome A) (w : W)
      → ((a : A) → Q a w → R a w)
      → ((e : Exn) → E e w → F e w)
      → ((h : Halt) → N h → M h)
      → Post Q E N r w
      → Post R F M r w
  Post-weaken Q R E F N M (returns a) w q e n h = q a h
  Post-weaken Q R E F N M (throws x) w q e n h = e x h
  Post-weaken Q R E F N M (halts x) w q e n h = n x h

  -- Two facts of one result.
  pub Post-both :
      (Q : A → W → Type ℓ) (E F : Exn → W → Type ℓ) (N M : Halt → Type ℓ) (R : A → W → Type ℓ)
      (r : Outcome A) (w : W)
      → Post Q E N r w
      → Post R F M r w
      → Post Q (λ e v. E e v × F e v) N r w
  Post-both Q E F N M R (returns a) w p q = p
  Post-both Q E F N M R (throws x) w p q = (p, q)
  Post-both Q E F N M R (halts x) w p q = p

module _ {ℓ κ} {W : Type ℓ} {A : Type κ} where
  anything :
      (r : Outcome A) (w : W) → Post {W = W} {A = A} (λ _ _. Unit) (λ _ _. Unit) (λ _. Unit) r w
  anything (returns a) w = tt
  anything (throws x) w = tt
  anything (halts x) w = tt

  -- Nothing asked.
  pub Triple-any :
      (m : Exec W A) → Triple {W = W} (λ _. Unit) m (λ _ _. Unit) (λ _ _. Unit) (λ _. Unit)
  Triple-any m = record { at = λ w h. anything (m w).0 (m w).1 }

  Post-and :
      (Q R : A → W → Type ℓ) (E F : Exn → W → Type ℓ) (N M : Halt → Type ℓ) (r : Outcome A) (w : W)
      → Post Q E N r w
      → Post R F M r w
      → Post (λ a v. Q a v × R a v) (λ e v. E e v × F e v) N r w
  Post-and Q R E F N M (returns a) w p q = (p, q)
  Post-and Q R E F N M (throws x) w p q = (p, q)
  Post-and Q R E F N M (halts x) w p q = p

  pub Triple-and :
      {P O : W → Type ℓ} {Q R : A → W → Type ℓ} {E F : Exn → W → Type ℓ} {N M : Halt → Type ℓ}
      (m : Exec W A)
      → Triple P m Q E N
      → Triple O m R F M
      → Triple (λ v. P v × O v) m (λ a v. Q a v × R a v) (λ e v. E e v × F e v) N
  Triple-and {Q = Q} {R = R} {E = E} {F = F} {N = N} {M = M} m s t = record {
    at = λ w h. Post-and Q R E F N M _ _ (s.at w h.0) (t.at w h.1);
  }

  pub Triple-weaken :
      {P : W → Type ℓ} {Q R : A → W → Type ℓ} {E F : Exn → W → Type ℓ} {N M : Halt → Type ℓ}
      (m : Exec W A)
      → ((a : A) (v : W) → Q a v → R a v)
      → ((e : Exn) (v : W) → E e v → F e v)
      → ((h : Halt) → N h → M h)
      → Triple P m Q E N
      → Triple P m R F M
  Triple-weaken {Q = Q} {R = R} {E = E} {F = F} {N = N} {M = M} m q e n t = record {
    at = λ w h. Post-weaken Q R E F N M _ _ (λ a. q a _) (λ x. e x _) n (t.at w h);
  }

module _ {ℓ κ} {W : Type ℓ} {A : Type κ} {N : Halt → Type ℓ} where
  pub Triple-pure :
      {Q : A → W → Type ℓ} {E : Exn → W → Type ℓ} (a : A) → Triple (Q a) (pure a) Q E N
  Triple-pure a = record { at = λ w h. h }

  pub Triple-throw :
      {Q : A → W → Type ℓ} {E : Exn → W → Type ℓ} (e : Exn) → Triple (E e) (throw e) Q E N
  Triple-throw e = record { at = λ w h. h }

  pub Triple-checked :
      {P : W → Type ℓ} {Q : A → W → Type ℓ} {E : Exn → W → Type ℓ} (f : String → Exn)
      (c : Checked A)
      → ((a : A) (w : W) → c ≡ value a → P w → Q a w)
      → ((m : String) (w : W) → c ≡ fails m → P w → E (f m) w)
      → Triple P (checked f c) Q E N
  Triple-checked f (value a) good bad = record { at = λ w h. good a w refl h }
  Triple-checked f (fails m) good bad = record { at = λ w h. bad m w refl h }

  pub Triple-if :
      {P : W → Type ℓ} {Q : A → W → Type ℓ} {E : Exn → W → Type ℓ} (b : Bool) (m n : Exec W A)
      → (b ≡ true → Triple P m Q E N)
      → (b ≡ false → Triple P n Q E N)
      → Triple P (if b then m else n) Q E N
  Triple-if true m n tm tn = tm refl
  Triple-if false m n tm tn = tn refl

  handle-Post :
      {Q : A → W → Type ℓ} {E F : Exn → W → Type ℓ} (h : Exn → Exec W A)
      → ((e : Exn) → Triple (E e) (h e) Q F N)
      → (r : Outcome A) (w : W) → Post Q E N r w
      → Post Q F N (handle r h w).0 (handle r h w).1
  handle-Post h th (returns a) w p = p
  handle-Post h th (throws e) w p = (th e).at w p
  handle-Post h th (halts x) w p = p

  pub Triple-catch :
      {P : W → Type ℓ} {Q : A → W → Type ℓ} {E F : Exn → W → Type ℓ} (m : Exec W A)
      (h : Exn → Exec W A)
      → Triple P m Q E N
      → ((e : Exn) → Triple (E e) (h e) Q F N)
      → Triple P (catch m h) Q F N
  unfolding catch
  Triple-catch m h tm th = record {
    at = λ w p. let (r, w') = m w in handle-Post h th r w' (tm.at w p);
  }

module _ {ℓ κ λ'} {W : Type ℓ} {A : Type κ} {B : Type λ'} {N : Halt → Type ℓ} where
  continue-Post :
      {Q : A → W → Type ℓ} {R : B → W → Type ℓ} {E : Exn → W → Type ℓ} (f : A → Exec W B)
      → ((a : A) → Triple (Q a) (f a) R E N)
      → (r : Outcome A) (w : W) → Post Q E N r w
      → Post R E N (continue r f w).0 (continue r f w).1
  continue-Post f tf (returns a) w p = (tf a).at w p
  continue-Post f tf (throws e) w p = p
  continue-Post f tf (halts x) w p = p

  pub Triple-bind :
      {P : W → Type ℓ} {Q : A → W → Type ℓ} {R : B → W → Type ℓ} {E : Exn → W → Type ℓ}
      (m : Exec W A) (f : A → Exec W B)
      → Triple P m Q E N
      → ((a : A) → Triple (Q a) (f a) R E N)
      → Triple P (m >>= f) R E N
  unfolding ◌>>=◌
  Triple-bind m f tm tf = record {
    at = λ w p. let (r, w') = m w in continue-Post f tf r w' (tm.at w p);
  }
