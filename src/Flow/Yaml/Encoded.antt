-- ===== src/Flow/Yaml/Encoded.antt =====
-- Which documents are decoded, and into what (src/flow/impl/yaml_conversion.hpp).
use cliot.Prelude.{
  ℕ, zero, suc, ◌<◌, ◌≡◌, ◌↔◌, refl, String, inl, inr, true, List, [], ◌∷◌, some, arith, All,
  All-map,
}
use cliot.Json.{Checked, value}
use cliot.Host.{YamlLib}
use cliot.Flow.Descriptors.{Step, Steps}
use cliot.Flow.Yaml.{
  field_as, decode_request, decode_response, decode_run_flow, decode_all, as_steps, decode_repeat,
  decode_block, decode_type, as_step, load_script,
}
use cliot.Flow.Yaml.Decoded.{HasSteps-of_load_script}
use cliot.Flow.Yaml.Documents.{
  HasText, HasRepeat, IsStep, HasSteps, AreSteps, request, response, run_flow, block, sequence,
  none_left, one_more,
}

module _ (Y : YamlLib) (indeterminate : ℕ) where
  open Y use {Node}

  field_as-of :
      {T : Type 0} (as_T : Node → Checked T) (n m : Node) (key : String) (t : T)
      → Y.subscript n key ≡ value (some m)
      → as_T m ≡ value t
      → field_as Y indeterminate as_T n key ≡ value t
  field_as-of as_T n m key t s d = rw (s, d) refl

  HasText-field_as :
      (n : Node) (key text : String)
      → HasText Y indeterminate n key text
      → field_as Y indeterminate Y.as_text n key ≡ value text
  HasText-field_as n key text (m, s, d) = field_as-of Y.as_text n m key text s d

  decode_repeat-of :
      (n : Node) (repeat : ℕ)
      → HasRepeat Y indeterminate n repeat
      → decode_repeat Y indeterminate n ≡ value repeat
  unfolding decode_repeat
  decode_repeat-of n repeat (inl (m, s, d)) = rw (s, d) refl
  decode_repeat-of n repeat (inr (s, e)) = rw (s, e) refl

  -- A map is decoded by the text of its type.
  as_step-of_type :
      (depth : ℕ) (n : Node) (type : String)
      → Y.is_map n ≡ true
      → HasText Y indeterminate n "type" type
      → as_step Y indeterminate (suc depth) n
        ≡ decode_type Y indeterminate (as_step Y indeterminate depth) n type
  unfolding as_step
  as_step-of_type depth n type map t = rw (map, HasText-field_as n "type" type t) refl

  AreSteps-decode_all :
      (f : Node → Checked Step) (ns : List Node) (steps : Steps)
      → All (λ n. (s : Step) → IsStep Y indeterminate n s → f n ≡ value s) ns
      → AreSteps Y indeterminate ns steps
      → decode_all Y indeterminate f ns ≡ value steps
  unfolding decode_all
  AreSteps-decode_all f [] steps h none_left = refl
  AreSteps-decode_all f (n ∷ ns) steps h (one_more {s = s} {steps = more} i a) =
      rw (h.0 s i, AreSteps-decode_all f ns more h.1 a) refl

  -- The steps in a node's sequence are less deep than the node.
  HasSteps-field_as :
      (f : Node → Checked Step) (n : Node) (steps : Steps)
      → ((k : Node) (s : Step) → Y.depth k < Y.depth n → IsStep Y indeterminate k s → f k ≡ value s)
      → HasSteps Y indeterminate n steps
      → field_as Y indeterminate (as_steps Y indeterminate f) n "steps" ≡ value steps
  unfolding as_steps
  HasSteps-field_as f n steps h (sequence m ns s q a) =
      rw (s, q)
        (AreSteps-decode_all f ns steps
          (All-map ns (λ k lt t i. h k t (omega (arith, lt, Y.subscript_depth n "steps" m s)) i)
            (Y.sequence_depth m ns q))
          a)

  IsStep-as_step :
      (depth : ℕ) (n : Node) (s : Step)
      → Y.depth n < depth
      → IsStep Y indeterminate n s
      → as_step Y indeterminate depth n ≡ value s
  unfolding decode_type decode_request decode_response decode_run_flow decode_block
  IsStep-as_step zero n s lt i = absurd (omega (arith, lt))
  IsStep-as_step (suc depth) n s lt (request {file = file} map t f) =
      rw (as_step-of_type depth n "request" map t, HasText-field_as n "file" file f) refl
  IsStep-as_step (suc depth) n s lt (response {file = file} map t f) =
      rw (as_step-of_type depth n "response" map t, HasText-field_as n "file" file f) refl
  IsStep-as_step (suc depth) n s lt (run_flow {name = name} map t f) =
      rw (as_step-of_type depth n "run_flow" map t, HasText-field_as n "name" name f) refl
  IsStep-as_step (suc depth) n s lt (block {repeat = repeat} {steps = steps} map t r h) =
      rw
        (
          as_step-of_type depth n "block" map t,
          decode_repeat-of n repeat r,
          HasSteps-field_as (as_step Y indeterminate depth) n steps
              (λ k t below i. IsStep-as_step depth k t (omega (arith, lt, below)) i) h,
        )
        refl

  -- A script is decoded into certain steps exactly if it stands for them: it leads by the key "steps" to
  -- a sequence of maps, each with the type and the keys of its step, and the steps of a block are those
  -- of its own sequence. A block without the key "repeat" is decoded with the number that the
  -- uninitialised field holds.
  pub load_script-HasSteps :
      (doc : Node) (steps : Steps)
      → (load_script Y indeterminate (value doc) ≡ value steps) ↔ HasSteps Y indeterminate doc steps
  unfolding load_script
  load_script-HasSteps doc steps = (
    HasSteps-of_load_script Y indeterminate doc steps,
    λ h.
        HasSteps-field_as (as_step Y indeterminate (Y.depth doc)) doc steps
          (λ k s lt i. IsStep-as_step (Y.depth doc) k s lt i) h,
  )
