-- ===== src/Main/Tests.antt =====
-- Runs of the program on the sample environment (src/main.cpp).
use cliot.Prelude.{◌≡◌, ◌⊎◌, refl, true, false}
use cliot.Json.{value, fails}
use cliot.Exec.{returns, catch, ◌>>=◌}
use cliot.Exec.Triple.{Post}
use cliot.Samples.Hosts.{world}
use cliot.Samples.Directories.{site, entries}
use cliot.Scheduler.Exit.{AllJudged}
use cliot.Scheduler.{exit_code}
use cliot.Main.{Options, parse_options, main, with_options}
use cliot.Main.Closes.{Closed, serving, main-Closed}

abbrev options : Options
options = record {
  help = false;
  path = value "";
  host = value "127.0.0.1";
  port = value 51233;
  filter = value "";
  verbose = value 1;
}

abbrev without_path : Options
without_path = record options { path = fails "option_has_no_value" }

abbrev asking : Options
asking = record options { help = true }

-- Nothing happens in these runs.
no_path : main site entries 3 (value without_path) world ≡ (returns 1, world)
unfolding main with_options exit_code catch ◌>>=◌ parse_options
no_path = refl

usage_shown : main site entries 3 (value asking) world ≡ (returns 0, world)
unfolding main exit_code catch ◌>>=◌ parse_options
usage_shown = refl

unknown_option : main site entries 3 (fails "option_not_exists") world ≡ (returns 1, world)
unfolding main exit_code catch ◌>>=◌ parse_options
unknown_option = refl

main-Closed_example :
    Post
      (λ r v.
        (((r ≡ 0) × AllJudged site entries "" "" (serving site entries 3 world) v) ⊎ (r ≡ 1))
        × Closed v.pool)
      (λ _ _. ⊥)
      (λ _. Unit {0})
      (main site entries 3 (value options) world).0
      (main site entries 3 (value options) world).1
main-Closed_example =
    main-Closed site entries 3 options "" "127.0.0.1" "" 51233 1 world refl refl refl refl refl refl
