-- ===== src/Json.antt =====
-- The JSON values that the program takes from nlohmann::json (inja::json), which is not part of the
-- repository: an interface with the operations that the sources call.
use cliot.Prelude.{ℕ, ◌<◌, String, ◌≡◌, Bool, true, List, All, In}

-- What a call of the library gives: a value, or an exception with its message.
pub data Checked {ℓ} (A : Type ℓ) : Type ℓ where
  value : A → Checked A
  fails : String → Checked A

-- If the call gives a value, then `P` holds of it.
abbrev pub Holds {ℓ} : {A : Type ℓ} → (A → Type 0) → Checked A → Type 0
Holds P (value a) = P a
Holds P (fails m) = Unit

-- Values and operations. The documentation gives each its meaning: `is_number_integer` holds of
-- signed and unsigned integers, `contains` is false on what is no object, `as_string` is
-- get<std::string>() on a string, `print` is the stream output, `dump` is dump(4), `at` is the const
-- operator[] on a key that is present, `index` and `set` are the writable operator[], `extend` is
-- `insert` of all elements of the second at the end of the first.
pub record JsonLib : Type 1 where
  pub Json : Type 0
  pub is_null : Json → Bool
  pub is_boolean : Json → Bool
  pub is_string : Json → Bool
  pub is_array : Json → Bool
  pub is_object : Json → Bool
  pub is_number_integer : Json → Bool
  pub is_number_unsigned : Json → Bool
  pub is_number_float : Json → Bool
  pub empty : Json → Bool
  pub size : Json → ℕ
  pub items : Json → List (String × Json)
  pub contains : Json → String → Bool
  pub at : Json → String → Json
  pub same : Json → Json → Bool
  pub null : Json
  pub of_string : String → Json
  pub of_bool : Bool → Json
  pub as_string : Json → String
  pub as_bool : Json → Bool
  pub type_error : Json → String
  pub print : Json → String
  pub dump : Json → String
  pub parse : String → Checked Json
  pub index : Json → String → Checked (Json × Json)
  pub set : Json → String → Json → Checked Json
  pub extend : Json → Json → Checked Json
  -- A value is a finite tree: its members are less deep.
  pub depth : Json → ℕ
  pub items_depth : (j : Json) → All (λ kv. depth kv.1 < depth j) (items j)

-- What the documentation says of an object's members and of equality.
pub record JsonLaws (J : JsonLib) : Type 0 where
  pub contains_item :
      (j : J.Json) (k : String) (v : J.Json) → In (k, v) (J.items j) → J.contains j k ≡ true
  pub at_item : (j : J.Json) (k : String) (v : J.Json) → In (k, v) (J.items j) → J.at j k ≡ v
  pub same_refl : (j : J.Json) → J.same j j ≡ true
