-- ===== src/Runner/Flows/Paths.antt =====
-- Where a run_flow step looks for its flow (src/flow/flow.hpp).
use cliot.Prelude.{String, ◌+++◌, ◌≡◌, ap, ◌∙◌, true}
use cliot.Flow.Descriptors.{Step}
use cliot.Flow.FilePath.{◌//◌, parent_path}
use cliot.Flow.FilePath.Parents.{
  no_separator, ends_in_name, parent_path-append, parent_path-closed, join_name,
}
use cliot.Runner.Flows.{FlowStep, load_step}

-- The data of a run_flow step: its base path is that of the flow `name`.
module _ (flows name other : String) (named : ends_in_name flows ≡ true)
    (plain : no_separator name ≡ true) where
  -- A top-level flow has the path that the crawler gives it, with a separator at its end. If `flows`
  -- is a path that ends in a file name, and the names of the flows are file names, then the flows that
  -- it runs are looked for beside it, and get a path without a separator at its end.
  pub load_step-top :
      ends_in_name name ≡ true
      → no_separator other ≡ true
      → load_step (Step.run_flow other) (flows +++ "/" +++ name +++ "/")
        ≡ FlowStep.run_flow_step (flows +++ "/" +++ other)
  unfolding load_step
  load_step-top whole flat =
      ap (λ p. FlowStep.run_flow_step (parent_path p // other))
        (parent_path-closed flows name whole)
      ∙ ap (λ p. FlowStep.run_flow_step (p // other)) (parent_path-append flows name named plain)
      ∙ ap FlowStep.run_flow_step (join_name flows other named flat)

  -- A flow that was itself run by a run_flow step has a path without a separator at its end. If
  -- `flows` is a path that ends in a file name, and the name of the flow has no separator, then the
  -- flows that it runs are looked for in the parent of the directory `flows`.
  pub load_step-nested :
      load_step (Step.run_flow other) (flows +++ "/" +++ name)
      ≡ FlowStep.run_flow_step (parent_path flows // other)
  unfolding load_step
  load_step-nested =
      ap (λ p. FlowStep.run_flow_step (parent_path p // other))
        (parent_path-append flows name named plain)
