-- ===== src/Flow/Descriptors.antt =====
-- The steps of a script (src/flow/descriptors.hpp). `Meta` is not used by any code.
use cliot.Prelude.{ℕ, String}

mutual
  -- descriptor::Step, the variant of the four structs.
  pub data Step : Type 0 where
    request : String → Step
    response : String → Step
    run_flow : String → Step
    repeat_block : Steps → ℕ → Step

  -- std::vector<Step>
  pub data Steps : Type 0 where
    nil : Steps
    cons : Step → Steps → Steps
