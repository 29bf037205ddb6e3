-- ===== src/Samples/Exchanges.antt =====
-- A server for the tests that answers every fetch with "body" and ends its connection without the
-- closing handshake.
use cliot.Prelude.{String, none}
use cliot.Json.{value, fails}
use cliot.Web.Fetcher.{eof, Exchange}

abbrev pub echo : Exchange
echo = record {
  Endpoints = String;
  host_name_error = λ host. none;
  resolve = λ host port. value host;
  connect = λ endpoints. value tt;
  handshake = value tt;
  write = λ req. value tt;
  read = value "body";
  shutdown = eof;
}

abbrev pub refusing : Exchange
refusing = record echo { connect = λ endpoints. fails "Connection refused" }
