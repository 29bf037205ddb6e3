-- ===== src/Util/Uri/Tests.antt =====
-- Some addresses (src/util/parse_uri.cpp).
use cliot.Prelude.{arith, ◌+++◌, String, ◌≡◌, refl}
use cliot.Util.Regex.{regex_match, mark_count}
use cliot.Util.Uri.RoundTrip.{parse_uri-url}
use cliot.Util.Uri.{parse_uri, no_uri}

abbrev lower : String → String
lower s = s

whole : parse_uri lower "https://a.b:51233/x/y?k=v" ≡ record {
  protocol = "https";
  domain = "a.b";
  port = "51233";
  resource = "/x/y";
  query = "k=v";
}
unfolding parse_uri mark_count regex_match
whole = refl

bare :
    parse_uri lower "localhost"
    ≡ record { protocol = "http"; domain = "localhost"; port = "80"; resource = "/"; query = "" }
unfolding parse_uri mark_count regex_match
bare = refl

slash_in_query : parse_uri lower "http://h/p?u=a/b" ≡ no_uri
unfolding parse_uri mark_count regex_match
slash_in_query = refl

flag_in_query : parse_uri lower "http://h/p?flag" ≡ no_uri
unfolding parse_uri mark_count regex_match
flag_in_query = refl

parse_uri-url_example :
    parse_uri lower ("https" +++ "://" +++ "localhost" +++ ":" +++ "51233" +++ "/" +++ "ledger/7")
    ≡ record {
      protocol = "https";
      domain = "localhost";
      port = "51233";
      resource = "/" +++ "ledger/7";
      query = "";
    }
parse_uri-url_example =
    parse_uri-url "https" "localhost" "51233" "ledger/7" (omega arith, omega arith) refl
      (omega arith) refl (omega arith) refl (omega arith) refl lower refl
