-- ===== src/Reporting/Renderer.antt =====
-- DefaultReportRenderer (src/reporting/default_report_renderer.cpp) and ReportEngine::record
-- (src/reporting/report_engine.hpp): what is printed of an event, as the texts given to fmt::print.
pub mod Levels
pub mod Content
mod Tests
use cliot.Prelude.{
  ℕ, String, ◌+++◌, ◌≡◌, Bool, List, [], ◌∷◌, ◌++◌, map, str_eq, ltb, if◌then◌else◌,
}
use cliot.Json.{JsonLib}
use cliot.Reporting.Events.{
  Issue, IssueType, logic_error, no_match, not_equal, type_check, SimpleEvent, SuccessEvent,
  FailureEvent, RequestEvent, ResponseEvent, Event, simple, success, failure, request, response,
}

-- fmt::color, as far as it is used, and fmt::emphasis.
pub data Color : Type 0 where
  ghost_white pale_green sky_blue pale_violet_red dark_red medium_violet_red red : Color
  blue_violet orange_red indian_red : Color

pub data Emphasis : Type 0 where
  bold italic : Emphasis

-- fmt. `format style text` is fmt::format(style, "{}", text), which fmt::print prints; `join` is
-- fmt::join. `{}` in a format string is the text itself.
pub record FmtLib : Type 1 where
  pub Style : Type 0
  pub fg : Color → Style
  pub with_emphasis : Style → Emphasis → Style
  pub format : Style → String → String
  pub join : List String → String → String

-- What the documentation says: a style puts codes around the text, `join` puts the separator between
-- the texts.
pub record FmtLaws (F : FmtLib) : Type 0 where
  pub opening : F.Style → String
  pub closing : F.Style → String
  pub format_lem :
      (style : F.Style) (text : String)
      → F.format style text ≡ opening style +++ (text +++ closing style)
  pub join-one : (text sep : String) → F.join (text ∷ []) sep ≡ text
  pub join-cons :
      (text next : String) (rest : List String) (sep : String)
      → F.join (text ∷ next ∷ rest) sep ≡ text +++ (sep +++ F.join (next ∷ rest) sep)

module _ (F : FmtLib) (J : JsonLib) where
  open F use {Style, fg, with_emphasis, format, join}
  open J use {Json}

  -- fg(color) | emphasis
  abbrev pub strong : Color → Style
  strong c = with_emphasis (fg c) bold

  abbrev pub slanted : Color → Style
  slanted c = with_emphasis (fg c) italic

  -- operator()(FailureEvent::Data::Type)
  pub type_text : IssueType → String
  type_text logic_error = format (strong orange_red) "LOGIC"
  type_text no_match = format (strong indian_red) "NO MATCH"
  type_text not_equal = format (strong indian_red) "NOT EQUAL"
  type_text type_check = format (strong indian_red) "WRONG TYPE"

  unfoldable pub detail_text : Issue → String
  detail_text issue =
      if str_eq issue.detail ""
      then ""
      else "\n\nExtra detail:\n---\n" +++ (issue.detail +++ "\n---\n")

  -- operator()(FailureEvent::Data)
  unfoldable pub issue_text : ℕ → Issue → String
  issue_text verbose issue =
      if ltb verbose 1
      then ""
      else "  "
        +++ (format (strong red) "-"
            +++ (" "
                +++ (type_text issue.type
                    +++ (" ["
                        +++ (format (strong sky_blue) issue.path
                            +++ ("]: " +++ (issue.message +++ detail_text issue)))))))

  unfoldable pub issue_texts : ℕ → List Issue → List String
  issue_texts verbose [] = []
  issue_texts verbose (issue ∷ rest) = issue_text verbose issue ∷ issue_texts verbose rest

  unfoldable pub render_simple : ℕ → SimpleEvent → List String
  render_simple verbose ev =
      if ltb verbose 1
      then []
      else format (fg ghost_white) "? | "
        ∷ format (strong pale_green) (ev.label +++ " ")
        ∷ format (strong sky_blue) (ev.message +++ "\n")
        ∷ []

  unfoldable pub render_success : ℕ → SuccessEvent → List String
  render_success verbose ev =
      if ltb verbose 1
      then []
      else format (fg ghost_white) "+ | "
        ∷ format (strong pale_green) "SUCCESS "
        ∷ format (strong sky_blue) (ev.flow_name +++ "\n")
        ∷ []

  -- `message` of the FailureEvent's operator.
  unfoldable pub failure_message : ℕ → FailureEvent → String
  unfolding issue_texts
  failure_message verbose ev =
      let flat_issues = join (issue_texts verbose ev.issues) "\n" in
      let title = "Failed '" +++ (format (strong pale_violet_red) ev.path +++ "':") in
      let all_issues = format (strong dark_red) flat_issues in
      let live = format (slanted medium_violet_red) ev.response in
      "\n [-] "
      +++ (title
          +++ ("\n\nIssues:\n"
              +++ (all_issues +++ ("\n\nLive response:\n---\n" +++ (live +++ "\n---")))))

  unfoldable pub render_failure : ℕ → FailureEvent → List String
  unfolding failure_message
  render_failure verbose ev =
      if ltb verbose 1
      then []
      else format (fg ghost_white) "- | "
        ∷ format (strong red) "FAIL "
        ∷ ("'"
            +++ (format (strong sky_blue) ev.flow_name
                +++ ("': " +++ (failure_message verbose ev +++ "\n"))))
        ∷ []

  unfoldable pub render_request : ℕ → RequestEvent Json → List String
  render_request verbose ev =
      if ltb verbose 2
      then []
      else format (fg ghost_white) "? | "
        ∷ format (strong pale_green) "REQUEST "
        ∷ format (strong sky_blue) (ev.path +++ "\n")
        ∷ ("Request data:\n---\n"
            +++ (format (slanted sky_blue) ev.data_text
                +++ ("\n---\nStore state:\n---\n"
                    +++ (format (slanted blue_violet) (J.dump ev.store) +++ "\n---\n"))))
        ∷ []

  unfoldable pub render_response : ℕ → ResponseEvent → List String
  render_response verbose ev =
      if ltb verbose 2
      then []
      else format (fg ghost_white) "? | "
        ∷ format (strong pale_green) "RESPONSE "
        ∷ format (strong sky_blue) (ev.path +++ "\n")
        ∷ ("Response:\n---\n"
            +++ (format (slanted sky_blue) ev.response
                +++ ("\n---\nExpectations:\n---\n"
                    +++ (format (slanted blue_violet) ev.expectations +++ "\n---\n"))))
        ∷ []

  unfoldable pub render : ℕ → Event Json → List String
  unfolding render_simple render_success render_failure render_request render_response
  render verbose (simple ev) = render_simple verbose ev
  render verbose (success ev) = render_success verbose ev
  render verbose (failure ev) = render_failure verbose ev
  render verbose (request ev) = render_request verbose ev
  render verbose (response ev) = render_response verbose ev

  -- ReportEngine::record of each event, in order.
  unfoldable pub print_events : Bool → ℕ → List (Event Json) → List String
  print_events sync_output verbose [] = []
  print_events sync_output verbose (ev ∷ rest) =
      (if sync_output then render verbose ev else []) ++ print_events sync_output verbose rest
