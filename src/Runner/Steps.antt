-- ===== src/Runner/Steps.antt =====
-- The request and the response step (src/flow/step/request.hpp, response.hpp).
pub mod Local
pub mod Links
pub mod Comparison
pub mod Failures
pub mod Performs
use cliot.Prelude.{
  ℕ, String, Bool, true, false, List, [], ◌∷◌, ◌++◌, Option, none, some, not, if◌then◌else◌,
}
use cliot.Json.{Checked}
use cliot.Reporting.Events.{
  Issue, logic_error, Event, request as request_event, response as response_event,
}
use cliot.Exec.{
  Exec, Exn, FlowException, flow, inja, json as json_exn, other, what, pure, throw, halt, checked,
  catch, ◌>>=◌, ◌>>◌, too_deep,
}
use cliot.Host.{Host}
use cliot.World.{World, with_store, record_event}
use cliot.Validation.{Validator, validate}
use cliot.Runner.Callbacks.{assign}
use cliot.Runner.Templates.{render_template}
use cliot.Web.Connections

abbrev pub logic_issue : String → String → String → Issue
logic_issue path message detail = record {
  type = logic_error;
  path = path;
  message = message;
  detail = detail;
}

abbrev pub flow_exception : String → List Issue → String → Exn
flow_exception path issues response =
    flow (record { path = path; issues = issues; response = response })

module _ (H : Host) where
  open H use {json}
  open json use {Json}

  -- The body of Request::perform's try block.
  unfoldable pub perform_body : String → Exec (World Json) ℕ
  perform_body path = do
    res ← render_template H path
    parsed ← checked json_exn (json.parse res)
    (λ w.
        record_event
          (request_event (record { path = path; store = w.store; data_text = json.dump parsed })) w)
    Connections.request H res

  -- Request::perform: any std::exception becomes a FlowException.
  unfoldable pub perform : String → Exec (World Json) ℕ
  unfolding perform_body
  perform path =
      catch (perform_body path)
        (λ e. throw (flow_exception path (logic_issue path (what e) "" ∷ []) "No data"))

  -- `if(not valid) throw FlowException(...)`; the validator has enough depth (`validate-Verdict`).
  pub conclude :
      String → Json → Option ((Bool × List Issue) × Validator) → Exec (World Json) Validator
  conclude path incoming none = halt too_deep
  conclude path incoming (some ((true, issues), v)) = pure v
  conclude path incoming (some ((false, issues), v)) =
      throw (flow_exception path issues (json.dump incoming))

  -- The inner try block of Response::validate.
  unfoldable pub compare_body : String → Validator → Json → String → Exec (World Json) Validator
  unfolding conclude
  compare_body path validator incoming result = do
    expectations ← checked json_exn (json.parse result)
    record_event (
        response_event (record {
          path = path;
          response = json.dump incoming;
          expectations = json.dump expectations;
        }))
    conclude path incoming (validate json validator expectations incoming)

  -- Its handler, `catch(StoreException const &)`.
  unfoldable pub on_store_exception : String → Json → String → Exn → Exec (World Json) Validator
  on_store_exception path incoming result (json_exn m) =
      throw (flow_exception path (logic_issue path m result ∷ []) (json.dump incoming))
  on_store_exception path incoming result e = throw e

  -- The outer try block.
  unfoldable pub validate_body : String → Validator → Json → Exec (World Json) Validator
  unfolding compare_body on_store_exception
  validate_body path validator incoming = do
    assign H "$res" incoming
    result ← render_template H path
    catch (compare_body path validator incoming result) (on_store_exception path incoming result)

  -- Its handlers, in their order: EnvError, FlowException, std::exception.
  unfoldable pub on_exception : String → Json → Exn → Exec (World Json) Validator
  on_exception path incoming (inja m) =
      throw (flow_exception path (logic_issue path (H.inja_message m) "" ∷ []) (json.dump incoming))
  on_exception path incoming (flow e) = throw (flow e)
  on_exception path incoming e =
      throw (flow_exception path (logic_issue path (what e) "" ∷ []) (json.dump incoming))

  -- Response::validate. The result is the validator as the step keeps it.
  unfoldable pub validate_response : String → Validator → Json → Exec (World Json) Validator
  unfolding validate_body on_exception
  validate_response path validator incoming =
      catch (validate_body path validator incoming) (on_exception path incoming)
