-- ===== src/Util/Uri/RoundTrip.antt =====
-- util::parse_uri gives back the parts of an address that was put together from them
-- (src/util/parse_uri.cpp).

use Prim.Native.String.compare.{cons-nil}
use text.Mathlib.TextLemmas.{cons-append, append-nil, append_assoc as text_append_assoc}
use cliot.Prelude.{
  ◌≤◌, String, ◌+++◌, ◌≡◌, refl, ap, ◌∙◌, true, false, some, [], ◌∷◌, arith, str_eq,
}
use cliot.Util.Regex.{at_end, regex_match, Captures, mark_count, literal, optional, sequence}
use cliot.Util.Regex.Greedy.{
  letters, all_of, Takes, stops, many-Takes, between-Takes, literal-Takes, optional-Takes,
  optional-Takes_nothing, sequence-Takes, group-Takes, literal-Fails, many-Fails, sequence-Fails,
  group-Fails,
}
use cliot.Util.Uri.{
  in_httpsw, in_domain, is_digit, in_resource, in_query, protocol_part, port_part, resource_part,
  query_part, parse_url, parse_uri,
}

separators-Takes :
    (rest : String) (c : Captures)
    → Takes (sequence (literal b':') (sequence (literal b'/') (literal b'/'))) "://" rest c c
separators-Takes rest c =
    sequence-Takes ":" "//" rest (literal-Takes _ b':' _ c refl)
      (sequence-Takes "/" "/" rest (literal-Takes _ b'/' _ c refl) (literal-Takes _ b'/' _ c refl))

stops-colon : (rest : String) → stops in_httpsw ("://" +++ rest) ≡ true
stops-colon rest = rw cons-append refl

stops-port : (rest : String) → stops in_domain (":" +++ rest) ≡ true
stops-port rest = rw cons-append refl

stops-slash : (rest : String) → stops is_digit ("/" +++ rest) ≡ true
stops-slash rest = rw cons-append refl

-- Nothing is left for what may follow the resource.
ending-Takes :
    (c : Captures)
    → Takes
        (sequence (optional (literal b'/')) (sequence (optional (literal b'?')) query_part))
        ""
        ""
        c
        c
ending-Takes c = sequence-Takes "" "" "" (optional-Takes_nothing (literal-Fails b'/' c)) (
    sequence-Takes "" "" "" (optional-Takes_nothing (literal-Fails b'?' c))
      (optional-Takes_nothing (group-Fails (sequence-Fails (many-Fails in_query 0 c)))))

letters-ne-nil : (s : String) → 1 ≤ letters s → str_eq s "" ≡ false
letters-ne-nil String.[] h = absurd (omega arith)
letters-ne-nil (String.◌∷◌ c s) h = rw (cons-nil c s) refl

module _ (protocol domain port resource : String)
    (few : (2 ≤ letters protocol) × (letters protocol ≤ 5))
    (known : all_of in_httpsw protocol ≡ true) (named : 1 ≤ letters domain)
    (plain : all_of in_domain domain ≡ true) (numbered : 1 ≤ letters port)
    (decimal : all_of is_digit port ≡ true) (placed : 1 ≤ letters resource)
    (flat : all_of in_resource resource ≡ true) where
  abbrev captures : Captures
  captures =
      (6, "/" +++ resource)
      ∷ (7, resource)
      ∷ (4, ":" +++ port)
      ∷ (5, port)
      ∷ (3, domain)
      ∷ (1, protocol +++ "://")
      ∷ (2, protocol)
      ∷ []

  protocol-Takes :
      (rest : String)
      → Takes protocol_part
          (protocol +++ "://")
          rest
          []
          ((1, protocol +++ "://") ∷ (2, protocol) ∷ [])
  protocol-Takes rest = optional-Takes (
      group-Takes (
        sequence-Takes protocol "://" rest
          (group-Takes (
            between-Takes in_httpsw 2 5 protocol ("://" +++ rest) [] known few.0 few.1
              (stops-colon rest)))
          (separators-Takes rest _)))

  port-Takes :
      (rest : String) (c : Captures)
      → stops is_digit rest ≡ true
      → Takes port_part (":" +++ port) rest c ((4, ":" +++ port) ∷ (5, port) ∷ c)
  port-Takes rest c end = optional-Takes (
      group-Takes (
        sequence-Takes ":" port rest (literal-Takes _ b':' _ c refl)
          (group-Takes (many-Takes is_digit 1 port rest c decimal numbered end))))

  resource-Takes :
      (c : Captures)
      → Takes resource_part ("/" +++ resource) "" c ((6, "/" +++ resource) ∷ (7, resource) ∷ c)
  resource-Takes c = optional-Takes (
      group-Takes (
        sequence-Takes "/" resource "" (literal-Takes _ b'/' _ c refl)
          (optional-Takes (group-Takes (many-Takes in_resource 1 resource "" c flat placed refl)))))

  -- What follows the protocol.
  abbrev after_domain : String
  after_domain = (":" +++ port) +++ (("/" +++ resource) +++ "")

  url-Takes : Takes parse_url ((protocol +++ "://") +++ (domain +++ after_domain)) "" [] captures
  url-Takes = sequence-Takes (protocol +++ "://") (domain +++ after_domain) "" (protocol-Takes _) (
      sequence-Takes domain after_domain ""
        (group-Takes (
          many-Takes in_domain 1 domain _ _ plain named (
            rw (text_append_assoc (":" +++ port) _ "", text_append_assoc ":" port _)
              (stops-port (port +++ (("/" +++ resource) +++ "") +++ "")))))
        (sequence-Takes (":" +++ port) (("/" +++ resource) +++ "") ""
          (port-Takes _ _ (
            rw (text_append_assoc ("/" +++ resource) "" "", text_append_assoc "/" resource _)
              (stops-slash (resource +++ "" +++ ""))))
          (sequence-Takes ("/" +++ resource) "" "" (resource-Takes _) (ending-Takes _))))

  matched :
      regex_match parse_url (protocol +++ "://" +++ domain +++ ":" +++ port +++ "/" +++ resource)
      ≡ some captures
  unfolding regex_match
  matched =
      let found : regex_match parse_url
            (((protocol +++ "://") +++ (domain +++ after_domain)) +++ "")
          ≡ some captures =
        url-Takes.first at_end captures refl in
      ap (regex_match parse_url) together ∙ found
    where
      together :
          protocol +++ "://" +++ domain +++ ":" +++ port +++ "/" +++ resource
          ≡ ((protocol +++ "://") +++ (domain +++ after_domain)) +++ ""
      together = simp (text_append_assoc, append-nil)

  slash-ne-nil : str_eq ("/" +++ resource) "" ≡ false
  slash-ne-nil = rw (cons-append, cons-nil) refl

  -- An address that is put together from a protocol of two to five of the letters of "https" and "wss", a
  -- domain without '/', ' ' and ':', a port of digits, and a resource without ' ' and '?', none of them
  -- empty, is taken apart into them, if `to_lower` leaves the protocol as it is. There is no query.
  pub parse_uri-url :
      (to_lower : String → String)
      → to_lower protocol ≡ protocol
      → parse_uri to_lower (protocol +++ "://" +++ domain +++ ":" +++ port +++ "/" +++ resource)
        ≡ record {
          protocol = protocol;
          domain = domain;
          port = port;
          resource = "/" +++ resource;
          query = "";
        }
  unfolding parse_uri mark_count
  parse_uri-url to_lower lower =
      rw
        (
          matched,
          lower,
          letters-ne-nil protocol (omega arith),
          letters-ne-nil port numbered,
          slash-ne-nil,
        )
        refl
