-- ===== src/Web/Fetcher/Tests.antt =====
-- An exchange with a server that ends its connection without the closing handshake
-- (src/web/fetcher.cpp).
use cliot.Prelude.{String, ◌+++◌, ◌↔◌, ◌≡◌, refl, arith}
use cliot.Json.{value, fails}
use cliot.Samples.Exchanges.{echo, refusing}
use cliot.Web.Fetcher.{get, post, fetch_body}
use cliot.Web.Fetcher.Serves.{Serves, fetch_body-url}

abbrev lower : String → String
lower s = s

fetched_text : fetch_body lower echo "https://h/ping" get ≡ value "body"
unfolding fetch_body
fetched_text = refl

refused : fetch_body lower refusing "https://h/ping" get ≡ fails "Connection refused"
unfolding fetch_body
refused = refl

fetch_body-url_example :
    (fetch_body lower echo
        ("https" +++ "://" +++ "localhost" +++ ":" +++ "51233" +++ "/" +++ "ledger/7")
        post
      ≡ value "body")
    ↔ Serves echo "localhost" "51233"
        (record {
          method = post;
          target = "/" +++ "ledger/7";
          version = 10;
          protocol_query = "";
          host = "localhost";
          user_agent = "cliot";
        })
        "body"
fetch_body-url_example =
    fetch_body-url "https" "localhost" "51233" "ledger/7" (omega arith, omega arith) refl
      (omega arith) refl (omega arith) refl (omega arith) refl lower refl echo post "body"
