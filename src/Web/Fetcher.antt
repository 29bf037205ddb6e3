-- ===== src/Web/Fetcher.antt =====
-- The try block of OnDemandFetcher::fetch (src/web/fetcher.cpp) over Boost.Beast and OpenSSL, which are
-- parameters. Its handler is in Runner.Callbacks.
pub mod Serves
mod Tests
use cliot.Prelude.{ℕ, String, ◌≡◌, refl, Bool, true, false, List, Option, none, some}
use cliot.Json.{Checked, value, fails}
use cliot.Util.Uri.{ParsedUri, parse_uri}

-- http::verb, as far as it is used.
pub data Verb : Type 0 where
  get post : Verb

-- http::request, as it is filled in.
pub record HttpRequest : Type 0 where
  pub method : Verb
  pub target : String
  pub version : ℕ
  pub protocol_query : String
  pub host : String
  pub user_agent : String

-- The code that `stream.shutdown(ec)` leaves, with its message.
pub data ErrorCode : Type 0 where
  success eof : ErrorCode
  error : String → ErrorCode

-- What the calls bring in one exchange. `host_name_error` is none where SSL_set_tlsext_host_name
-- succeeds; `message` is what() of the system_error with the code.
pub record Exchange : Type 1 where
  pub Endpoints : Type 0
  pub host_name_error : String → Option String
  pub resolve : String → String → Checked Endpoints
  pub connect : Endpoints → Checked (Unit {0})
  pub handshake : Checked (Unit {0})
  pub write : HttpRequest → Checked (Unit {0})
  pub read : Checked String
  pub shutdown : ErrorCode

infixl 5 ◌>>=◌ ◌>>◌
abbrev ◌>>=◌ {ℓ κ} : {A : Type ℓ} {B : Type κ} → Checked A → (A → Checked B) → Checked B
value a >>= f = f a
fails m >>= f = fails m

abbrev ◌>>◌ {ℓ} : {B : Type ℓ} → Checked (Unit {0}) → Checked B → Checked B
m >> n = m >>= λ _. n

unfoldable pub request_of : Verb → ParsedUri → HttpRequest
request_of method uri = record {
  method = method;
  target = uri.resource;
  version = 10;
  protocol_query = uri.query;
  host = uri.domain;
  user_agent = "cliot";
}

-- The test of SSL_set_tlsext_host_name.
unfoldable pub host_name : Option String → Checked (Unit {0})
host_name none = value tt
host_name (some m) = fails m

-- `if(ec == eof) ec = {}; if(ec) throw system_error{ec}`
unfoldable pub closed : ErrorCode → Checked (Unit {0})
closed success = value tt
closed eof = value tt
closed (error m) = fails m

module _ (to_lower : String → String) (E : Exchange) where
  -- The body of the try block.
  unfoldable pub fetch_body : String → Verb → Checked String
  unfolding host_name closed
  fetch_body url method = do
    let uri = parse_uri to_lower url
    host_name (E.host_name_error uri.domain)
    results ← E.resolve uri.domain uri.port
    E.connect results
    E.handshake
    E.write (request_of method uri)
    body ← E.read
    closed E.shutdown
    value body
