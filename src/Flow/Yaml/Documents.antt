-- ===== src/Flow/Yaml/Documents.antt =====
-- Which documents stand for which steps: the format of a script, as README.md tells it, on the nodes of
-- yaml-cpp. A block without `repeat` stands for one with the number `indeterminate`.
use cliot.Prelude.{ℕ, String, ◌≡◌, true, ◌⊎◌, List, [], ◌∷◌, none, some}
use cliot.Json.{value}
use cliot.Host.{YamlLib}
use cliot.Flow.Descriptors.{Step, Steps, nil, cons}

module _ (Y : YamlLib) (indeterminate : ℕ) where
  open Y use {Node}

  -- The key leads to a text.
  abbrev pub HasText : Node → String → String → Type 0
  HasText n key text =
      (m : Node) × (Y.subscript n key ≡ value (some m)) × (Y.as_text m ≡ value text)

  abbrev pub HasRepeat : Node → ℕ → Type 0
  HasRepeat n repeat =
      ((m : Node) × (Y.subscript n "repeat" ≡ value (some m)) × (Y.as_uint32 m ≡ value repeat))
      ⊎ ((Y.subscript n "repeat" ≡ value none) × (repeat ≡ indeterminate))

  mutual
    pub data IsStep : Node → Step → Type 0 where
      request :
          {n : Node} {file : String}
          → Y.is_map n ≡ true
          → HasText n "type" "request"
          → HasText n "file" file
          → IsStep n (Step.request file)
      response :
          {n : Node} {file : String}
          → Y.is_map n ≡ true
          → HasText n "type" "response"
          → HasText n "file" file
          → IsStep n (Step.response file)
      run_flow :
          {n : Node} {name : String}
          → Y.is_map n ≡ true
          → HasText n "type" "run_flow"
          → HasText n "name" name
          → IsStep n (Step.run_flow name)
      block :
          {n : Node} {repeat : ℕ} {steps : Steps}
          → Y.is_map n ≡ true
          → HasText n "type" "block"
          → HasRepeat n repeat
          → HasSteps n steps
          → IsStep n (Step.repeat_block steps repeat)

    -- The key "steps" leads to a sequence.
    pub data HasSteps : Node → Steps → Type 0 where
      sequence :
          {n : Node} {steps : Steps} (m : Node) (ns : List Node)
          → Y.subscript n "steps" ≡ value (some m)
          → Y.as_sequence m ≡ value ns
          → AreSteps ns steps
          → HasSteps n steps

    pub data AreSteps : List Node → Steps → Type 0 where
      none_left : AreSteps [] nil
      one_more :
          {n : Node} {ns : List Node} {s : Step} {steps : Steps}
          → IsStep n s
          → AreSteps ns steps
          → AreSteps (n ∷ ns) (cons s steps)
