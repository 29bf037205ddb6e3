-- ===== src/Web/Fetcher/Serves.antt =====
-- What a fetch asks of which server (src/web/fetcher.cpp).
use cliot.Prelude.{
  ◌≤◌, ◌↔◌, ◌∙◌, ◌+++◌, String, ◌≡◌, ◌⊎◌, inl, inr, refl, sym, subst, true, Option, none, some,
}
use cliot.Json.{Checked, value, fails}
use cliot.Util.Regex.Greedy.{letters, all_of}
use cliot.Util.Uri.{ParsedUri, parse_uri, in_httpsw, in_domain, is_digit, in_resource}
use cliot.Util.Uri.RoundTrip.{parse_uri-url}
use cliot.Web.Fetcher.{
  Verb, HttpRequest, ErrorCode, success, eof, error, Exchange, request_of, host_name, closed,
  fetch_body, ◌>>=◌,
}

-- The server of the domain and the port answers the request with the body: the names are accepted and
-- found, connecting, the TLS handshake, writing exactly this request and reading succeed, and the
-- connection ends without an error, or at least with no other one than a missing closing handshake.
pub record Serves (E : Exchange) (domain port : String) (req : HttpRequest) (body : String)
    : Type 0 where
  pub named : E.host_name_error domain ≡ none
  pub endpoints : E.Endpoints
  pub resolved : E.resolve domain port ≡ value endpoints
  pub connected : E.connect endpoints ≡ value tt
  pub secured : E.handshake ≡ value tt
  pub written : E.write req ≡ value tt
  pub answered : E.read ≡ value body
  pub ended : (E.shutdown ≡ success) ⊎ (E.shutdown ≡ eof)

module _ (to_lower : String → String) (E : Exchange) where
  >>=-value {ℓ κ} :
      {A : Type ℓ} {B : Type κ} (m : Checked A) (f : A → Checked B) {b : B}
      → (m >>= f) ≡ value b
      → (a : A) × (m ≡ value a) × (f a ≡ value b)
  >>=-value (value a) f h = (a, refl, h)
  >>=-value (fails m) f h = cc

  closed-value : (c : ErrorCode) → closed c ≡ value tt → (c ≡ success) ⊎ (c ≡ eof)
  unfolding closed
  closed-value success h = inl refl
  closed-value eof h = inr refl
  closed-value (error k) h = cc

  host_name-value : (o : Option String) → host_name o ≡ value tt → o ≡ none
  unfolding host_name
  host_name-value none h = refl
  host_name-value (some m) h = cc

  closed-open : (c : ErrorCode) → (c ≡ success) ⊎ (c ≡ eof) → closed c ≡ value tt
  unfolding closed
  closed-open c (inl e) = rw e refl
  closed-open c (inr e) = rw e refl

  Serves-of_body :
      (url body : String) (method : Verb)
      → fetch_body to_lower E url method ≡ value body
      → Serves E
          (parse_uri to_lower url).domain
          (parse_uri to_lower url).port
          (request_of method (parse_uri to_lower url))
          body
  unfolding fetch_body
  Serves-of_body url body method h =
      let uri = parse_uri to_lower url in
      let (a, ha, h1) = >>=-value (host_name (E.host_name_error uri.domain)) _ h in
      let (results, hr, h2) = >>=-value (E.resolve uri.domain uri.port) _ h1 in
      let (b, hb, h3) = >>=-value (E.connect results) _ h2 in
      let (c, hc, h4) = >>=-value E.handshake _ h3 in
      let (d, hd, h5) = >>=-value (E.write (request_of method uri)) _ h4 in
      let (text, ht, h6) = >>=-value E.read _ h5 in
      let (e, he, h7) = >>=-value (closed E.shutdown) _ h6 in
      record {
        named = host_name-value _ ha;
        endpoints = results;
        resolved = hr;
        connected = hb;
        secured = hc;
        written = hd;
        answered = ht ∙ h7;
        ended = closed-value _ he;
      }

  body-of_Serves :
      (url body : String) (method : Verb)
      → Serves E
          (parse_uri to_lower url).domain
          (parse_uri to_lower url).port
          (request_of method (parse_uri to_lower url))
          body
      → fetch_body to_lower E url method ≡ value body
  unfolding fetch_body
  body-of_Serves url body method c =
      rw (c.named, c.resolved, c.connected, c.secured, c.written, c.answered, closed-open _ c.ended)
        refl

-- For an address that is put together from a protocol of two to five of the letters of "https" and
-- "wss", a domain without '/', ' ' and ':', a port of digits, and a resource without ' ' and '?', none of
-- them empty, where `to_lower` leaves the protocol as it is: the try block of a fetch ends with a body
-- exactly if the server of this domain and port answers the request for "/" and the resource, with the
-- domain as its host, with this body.
pub fetch_body-url :
    (protocol domain port resource : String)
    → (2 ≤ letters protocol) × (letters protocol ≤ 5)
    → all_of in_httpsw protocol ≡ true
    → 1 ≤ letters domain
    → all_of in_domain domain ≡ true
    → 1 ≤ letters port
    → all_of is_digit port ≡ true
    → 1 ≤ letters resource
    → all_of in_resource resource ≡ true
    → (to_lower : String → String) → to_lower protocol ≡ protocol
    → (E : Exchange) (method : Verb) (body : String)
    → (fetch_body to_lower E
          (protocol +++ "://" +++ domain +++ ":" +++ port +++ "/" +++ resource)
          method
        ≡ value body)
      ↔ Serves E domain port
          (record {
            method = method;
            target = "/" +++ resource;
            version = 10;
            protocol_query = "";
            host = domain;
            user_agent = "cliot";
          })
          body
unfolding request_of
fetch_body-url protocol domain port resource few known named plain numbered decimal placed flat
      to_lower lower E method body =
    let url : String = protocol +++ "://" +++ domain +++ ":" +++ port +++ "/" +++ resource in
    let parsed : parse_uri to_lower url ≡ record {
      protocol = protocol;
      domain = domain;
      port = port;
      resource = "/" +++ resource;
      query = "";
    } =
      parse_uri-url protocol domain port resource few known named plain numbered decimal placed flat
        to_lower lower in
    let answers : ParsedUri → Type 0 =
      λ uri. Serves E uri.domain uri.port (request_of method uri) body in
    (
      (λ h. subst answers parsed (Serves-of_body to_lower E url body method h)),
      (λ s. body-of_Serves to_lower E url body method (subst answers (sym parsed) s)),
    )
