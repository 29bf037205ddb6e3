-- ===== src/Util/Uri.antt =====
-- util::parse_uri (src/util/parse_uri.cpp).
pub mod RoundTrip
mod Tests
use cliot.Prelude.{
  ℕ, ◌+◌, String, ◌≡◌, refl, Bool, true, false, not, ◌&&◌, ◌||◌, Option, none, some, leb, str_eq,
  ◌==◌, if◌then◌else◌,
}
use cliot.Util.Regex.{
  Regex, literal, many, between, optional, sequence, group, Captures, captured, mark_count,
  regex_match, run, run_many, run_between, run_literal,
}

pub record ParsedUri : Type 0 where
  pub protocol : String
  pub domain : String
  pub port : String
  pub resource : String
  pub query : String

abbrev pub no_uri : ParsedUri
no_uri = record { protocol = ""; domain = ""; port = ""; resource = ""; query = "" }

-- [httpsw], with the flag icase.
abbrev pub in_httpsw : ℕ → Bool
in_httpsw c =
    c == b'h'
    || c == b't'
    || c == b'p'
    || c == b's'
    || c == b'w'
    || c == b'H'
    || c == b'T'
    || c == b'P'
    || c == b'S'
    || c == b'W'

-- [^/ :]
abbrev pub in_domain : ℕ → Bool
in_domain c = not (c == b'/' || c == b' ' || c == b':')

-- \d
abbrev pub is_digit : ℕ → Bool
is_digit c = leb b'0' c && leb c b'9'

-- [^ ?]
abbrev pub in_resource : ℕ → Bool
in_resource c = not (c == b' ' || c == b'?')

-- [^/ ]
abbrev pub in_query : ℕ → Bool
in_query c = not (c == b'/' || c == b' ')

-- PARSE_URL, in parts: the protocol, the domain, the port, the resource, and what follows.
abbrev pub protocol_part : Regex
protocol_part = optional (
    group 1 (
      sequence (group 2 (between in_httpsw 2 5))
        (sequence (literal b':') (sequence (literal b'/') (literal b'/')))))

abbrev pub port_part : Regex
port_part = optional (group 4 (sequence (literal b':') (group 5 (many is_digit 1))))

abbrev pub resource_part : Regex
resource_part =
    optional (group 6 (sequence (literal b'/') (optional (group 7 (many in_resource 1)))))

abbrev pub query_part : Regex
query_part =
    optional (group 8 (sequence (many in_query 1) (sequence (literal b'=') (many in_query 1))))

abbrev pub parse_url : Regex
parse_url = sequence protocol_part (
    sequence (group 3 (many in_domain 1)) (
      sequence port_part (
        sequence resource_part
          (sequence (optional (literal b'/')) (sequence (optional (literal b'?')) query_part)))))

unfoldable pub value_or : String → String → String
value_or value deflt = if str_eq value "" then deflt else value

-- `to_lower` is boost::algorithm::to_lower_copy.
module _ (to_lower : String → String) where
  unfoldable pub of_match : Captures → ParsedUri
  unfolding value_or
  of_match match =
      let protocol = value_or (to_lower (captured 2 match)) "http" in
      let is_sequre_protocol = str_eq protocol "https" || str_eq protocol "wss" in
      record {
        protocol = protocol;
        domain = captured 3 match;
        port = value_or (captured 5 match) (if is_sequre_protocol then "443" else "80");
        resource = value_or (captured 6 match) "/";
        query = captured 8 match;
      }

  unfoldable pub if_matched : Option Captures → ParsedUri
  unfolding of_match
  if_matched none = no_uri
  if_matched (some match) = if mark_count parse_url + 1 == 9 then of_match match else no_uri

  unfoldable pub parse_uri : String → ParsedUri
  unfolding if_matched
  parse_uri url = if_matched (regex_match parse_url url)
