-- ===== src/Reporting/Events.antt =====
-- The events that the program records (src/reporting/events.hpp). The time stamp of `MetaEvent` is
-- left out: nothing reads it.
use cliot.Prelude.{String, List}

-- FailureEvent::Data::Type
pub data IssueType : Type 0 where
  logic_error no_match not_equal type_check : IssueType

-- FailureEvent::Data
pub record Issue : Type 0 where
  pub type : IssueType
  pub path : String
  pub message : String
  pub detail : String

pub record SimpleEvent : Type 0 where
  pub label : String
  pub message : String

pub record SuccessEvent : Type 0 where
  pub flow_name : String

pub record FailureEvent : Type 0 where
  pub flow_name : String
  pub path : String
  pub issues : List Issue
  pub response : String

pub record RequestEvent (Json : Type 0) : Type 0 where
  pub path : String
  pub store : Json
  pub data_text : String

pub record ResponseEvent : Type 0 where
  pub path : String
  pub response : String
  pub expectations : String

-- What `ReportEngine::record` is given: one of the event types.
pub data Event (Json : Type 0) : Type 0 where
  simple : SimpleEvent → Event Json
  success : SuccessEvent → Event Json
  failure : FailureEvent → Event Json
  request : RequestEvent Json → Event Json
  response : ResponseEvent → Event Json
