-- ===== src/Flow/Yaml/Decoded.antt =====
-- What the decoding of a script accepts, and what it gives (src/flow/impl/yaml_conversion.hpp).
use cliot.Prelude.{
  ℕ, zero, suc, ◌≡◌, refl, subst, String, inl, inr, true, List, [], ◌∷◌, Option, none, some, str_eq,
  eq_iff, Bool-cases,
}
use cliot.Json.{Checked, value, fails, Holds}
use cliot.Host.{YamlLib}
use cliot.Flow.Descriptors.{Step, Steps}
use cliot.Flow.Yaml.{
  ◌>>=◌, field_as, decode_request, decode_response, decode_run_flow, decode_all, as_steps,
  decode_repeat, decode_block, decode_type, as_step, load_script,
}
use cliot.Flow.Yaml.Documents.{
  HasText, HasRepeat, IsStep, HasSteps, AreSteps, request, response, run_flow, block, sequence,
  none_left, one_more,
}

Holds-bind :
    {A B : Type 0} (P : B → Type 0) (c : Checked A) (f : A → Checked B)
    → ((a : A) → c ≡ value a → Holds P (f a))
    → Holds P (c >>= f)
Holds-bind P (value a) f h = h a refl
Holds-bind P (fails m) f h = tt

Holds-value : {A : Type 0} (P : A → Type 0) (c : Checked A) (a : A) → Holds P c → c ≡ value a → P a
Holds-value P c a h e = subst (λ r. Holds P r) e h

Holds-map :
    {A : Type 0} (P Q : A → Type 0)
    → ((a : A) → P a → Q a)
    → (c : Checked A) → Holds P c
    → Holds Q c
Holds-map P Q f (value a) h = f a h
Holds-map P Q f (fails m) h = tt

Holds-self :
    {A : Type 0} {P : A → Type 0} (c : Checked A) → ((a : A) → c ≡ value a → P a) → Holds P c
Holds-self (value a) h = h a refl
Holds-self (fails m) h = tt

module _ (Y : YamlLib) (indeterminate : ℕ) where
  open Y use {Node}

  Holds-field_as :
      {T S : Type 0} (P : S → Type 0) (as_T : Node → Checked T) (n : Node) (key : String)
      (f : T → Checked S)
      → ((m : Node) (t : T) → Y.subscript n key ≡ value (some m) → as_T m ≡ value t → Holds P (f t))
      → Holds P (field_as Y indeterminate as_T n key >>= f)
  Holds-field_as P as_T n key f h = by_node (Y.subscript n key) refl
    where
      by_node :
          (c : Checked (Option Node))
          → Y.subscript n key ≡ c
          → Holds P ((c >>= elim [ none ↦ fails Y.bad_node | some m ↦ as_T m ]) >>= f)
      by_node (fails m) e = tt
      by_node (value none) e = tt
      by_node (value (some m)) e = Holds-bind P (as_T m) f (λ t d. h m t e d)

  decode_all-AreSteps :
      (f : Node → Checked Step) (ns : List Node)
      → ((n : Node) → Holds (IsStep Y indeterminate n) (f n))
      → Holds (AreSteps Y indeterminate ns) (decode_all Y indeterminate f ns)
  unfolding decode_all
  decode_all-AreSteps f [] h = none_left
  decode_all-AreSteps f (n ∷ ns) h = Holds-bind _ (f n) _ (λ s e.
      Holds-bind _ (decode_all Y indeterminate f ns) _ (λ rest d.
        one_more (Holds-value _ (f n) s (h n) e)
          (Holds-value _ (decode_all Y indeterminate f ns) rest (decode_all-AreSteps f ns h) d)))

  steps-HasSteps :
      (f : Node → Checked Step) (n m : Node) (steps : Steps)
      → ((k : Node) → Holds (IsStep Y indeterminate k) (f k))
      → Y.subscript n "steps" ≡ value (some m)
      → as_steps Y indeterminate f m ≡ value steps
      → HasSteps Y indeterminate n steps
  unfolding as_steps
  steps-HasSteps f n m steps h e d =
      Holds-value (HasSteps Y indeterminate n) _ steps
        (Holds-bind (HasSteps Y indeterminate n) (Y.as_sequence m) _ (λ ns q.
          Holds-map {A = Steps} (AreSteps Y indeterminate ns) (HasSteps Y indeterminate n)
            (λ rest a. sequence m ns e q a) (decode_all Y indeterminate f ns)
            (decode_all-AreSteps f ns h)))
        d

  HasRepeat-decode_repeat :
      (n : Node) → Holds (HasRepeat Y indeterminate n) (decode_repeat Y indeterminate n)
  unfolding decode_repeat
  HasRepeat-decode_repeat n = by_node (Y.subscript n "repeat") refl
    where
      by_node :
          (c : Checked (Option Node))
          → Y.subscript n "repeat" ≡ c
          → Holds
              (HasRepeat Y indeterminate n)
              (c >>= elim [ none ↦ value indeterminate | some m ↦ Y.as_uint32 m ])
      by_node (fails m) e = tt
      by_node (value none) e = inr (e, refl)
      by_node (value (some m)) e = Holds-self (Y.as_uint32 m) (λ r d. inl (m, e, d))

  decode_type-IsStep :
      (f : Node → Checked Step) (n : Node) (type : String)
      → ((k : Node) → Holds (IsStep Y indeterminate k) (f k))
      → Y.is_map n ≡ true
      → HasText Y indeterminate n "type" type
      → Holds (IsStep Y indeterminate n) (decode_type Y indeterminate f n type)
  unfolding decode_type decode_request decode_response decode_run_flow decode_block
  decode_type-IsStep f n type h map t = elim (Bool-cases (str_eq type "request")) [
    | inl e ↦ rw e (
        Holds-field_as _ Y.as_text n "file" _
          (λ m file s d. request map (named type "request" t e) (m, s, d)))
    | inr a ↦ elim (Bool-cases (str_eq type "response")) [
      | inl e ↦
          rw (a, e)
            (Holds-field_as _ Y.as_text n "file" _
              (λ m file s d. response map (named type "response" t e) (m, s, d)))
      | inr b ↦ elim (Bool-cases (str_eq type "run_flow")) [
        | inl e ↦
            rw (a, b, e)
              (Holds-field_as _ Y.as_text n "name" _
                (λ m name s d. run_flow map (named type "run_flow" t e) (m, s, d)))
        | inr c ↦ elim (Bool-cases (str_eq type "block")) [
          | inl e ↦
              rw (a, b, c, e)
                (Holds-bind _ (decode_repeat Y indeterminate n) _ (λ r q.
                  Holds-field_as _ (as_steps Y indeterminate f) n "steps" _ (λ m steps s d.
                    block map (named type "block" t e)
                      (Holds-value (HasRepeat Y indeterminate n) _ r (HasRepeat-decode_repeat n) q)
                      (steps-HasSteps f n m steps h s d))))
          | inr e ↦ rw (a, b, c, e) tt
        ]
      ]
    ]
  ]
    where
      named :
          (type key : String)
          → HasText Y indeterminate n "type" type
          → str_eq type key ≡ true
          → HasText Y indeterminate n "type" key
      named type key t e = subst (λ k. HasText Y indeterminate n "type" k) ((eq_iff type key).0 e) t

  as_step-IsStep :
      (depth : ℕ) (n : Node) → Holds (IsStep Y indeterminate n) (as_step Y indeterminate depth n)
  unfolding as_step
  as_step-IsStep zero n = tt
  as_step-IsStep (suc depth) n = elim (Bool-cases (Y.is_map n)) [
    | inl e ↦ rw e (
        Holds-field_as (IsStep Y indeterminate n) Y.as_text n "type" _ (λ m type s d.
          decode_type-IsStep (as_step Y indeterminate depth) n type (as_step-IsStep depth) e
            (m, s, d)))
    | inr e ↦ rw e tt
  ]

  HasSteps-of_field_as :
      (f : Node → Checked Step) (n : Node) (steps : Steps)
      → ((k : Node) → Holds (IsStep Y indeterminate k) (f k))
      → field_as Y indeterminate (as_steps Y indeterminate f) n "steps" ≡ value steps
      → HasSteps Y indeterminate n steps
  HasSteps-of_field_as f n steps h = by_node (Y.subscript n "steps") refl
    where
      by_node :
          (c : Checked (Option Node))
          → Y.subscript n "steps" ≡ c
          → (c >>= elim [ none ↦ fails Y.bad_node | some m ↦ as_steps Y indeterminate f m ])
            ≡ value steps
          → HasSteps Y indeterminate n steps
      by_node (fails m) e d = absurd cc
      by_node (value none) e d = absurd cc
      by_node (value (some m)) e d = steps-HasSteps f n m steps h e d

  -- What a script is decoded into, it stands for.
  pub HasSteps-of_load_script :
      (doc : Node) (steps : Steps)
      → load_script Y indeterminate (value doc) ≡ value steps
      → HasSteps Y indeterminate doc steps
  unfolding load_script
  HasSteps-of_load_script doc steps e =
      HasSteps-of_field_as (as_step Y indeterminate (Y.depth doc)) doc steps
        (as_step-IsStep (Y.depth doc)) e
