-- ===== src/Reporting/Renderer/Tests.antt =====
-- The renderer on sample events (src/reporting/default_report_renderer.cpp).
use cliot.Prelude.{String, ◌≡◌, refl, true, List, [], ◌∷◌, In, here, arith, Within}
use cliot.Reporting.Events.{
  Issue, no_match, logic_error, FailureEvent, Event, simple, request, failure,
}
use cliot.Samples.Tree.{Tree, null}
use cliot.Samples.Values.{sample}
use cliot.Samples.Styles.{styles, styles-FmtLaws}
use cliot.Reporting.Renderer.{
  render_failure, print_events, type_text, detail_text, issue_text, issue_texts, failure_message,
}
use cliot.Reporting.Renderer.Levels.{shown, print_events-shown}
use cliot.Reporting.Renderer.Content.{render_failure-Within}

abbrev missing : Issue
missing = record {
  type = no_match;
  path = "result.id";
  message = "Key is not present in the response";
  detail = "";
}

abbrev failed : FailureEvent
failed = record {
  flow_name = "login";
  path = "flows/login/answer.json";
  issues = missing ∷ record { type = logic_error; path = "p"; message = "m"; detail = "d" } ∷ [];
  response = "{}";
}

abbrev events : List (Event Tree)
events =
    simple (record { label = "RUNNING"; message = "login" })
    ∷ request (record { path = "ask.json"; store = null; data_text = "{}" })
    ∷ failure failed
    ∷ []

-- One issue for each line, and the details of those that have some.
printed :
    render_failure styles sample 1 failed
    ≡ "<- | >" ∷ "<*FAIL >"
      ∷ "'<*login>': \n [-] Failed '<*flows/login/answer.json>':\n\nIssues:\n<*  <*-> <*NO MATCH> [<*result.id>]: Key is not present in the response\n  <*-> <*LOGIC> [<*p>]: m\n\nExtra detail:\n---\nd\n---\n>\n\nLive response:\n---\n<*{}>\n---\n"
      ∷ []
unfolding render_failure failure_message issue_texts issue_text detail_text type_text
printed = refl

print_events-shown_example :
    print_events styles sample true 1 events ≡ print_events styles sample true 2 (shown 1 events)
print_events-shown_example = print_events-shown styles sample 1 events

render_failure-Within_example :
    (text : String) × In text (render_failure styles sample 1 failed)
    × Within "login" text
    × Within "flows/login/answer.json" text
    × Within "{}" text
    × Within "result.id" text
    × Within "Key is not present in the response" text
    × Within "" text
render_failure-Within_example =
    render_failure-Within styles styles-FmtLaws sample 1 failed missing (omega arith) here
