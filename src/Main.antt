-- ===== src/Main.antt =====
-- The program (src/main.cpp): the options, the services that live as long as the scheduler runs, and the
-- handler.
pub mod Closes
mod Tests
use cliot.Prelude.{
  ℕ, String, ◌≡◌, refl, Bool, true, false, List, [], Option, none, some, if◌then◌else◌,
}
use cliot.Json.{Checked}
use cliot.Exec.{Exec, Exn, other, pure, throw, checked, catch, modify, ◌>>=◌, ◌>>◌}
use cliot.Host.{Host}
use cliot.World.{World}
use cliot.Crawler.{DirectoryEntry}
use cliot.Web.Connections.{make_pool, close_pool}
use cliot.Scheduler.{run, exit_code}

-- What cxxopts makes of the arguments: `help` is whether the flag was given, and the others are
-- result[…].as<…>(), which throws where there is no value.
pub record Options : Type 0 where
  pub help : Bool
  pub path : Checked String
  pub host : Checked String
  pub port : Checked ℕ
  pub filter : Checked String
  pub verbose : Checked ℕ

module _ (H : Host) (entries : String → Checked (List DirectoryEntry)) (depth : ℕ) where
  open H use {json}
  open json use {Json}

  -- It prints and ends the program with EXIT_SUCCESS: `none` stands for the end.
  abbrev usage : Exec (World Json) (Option Options)
  usage = pure none

  -- `parsed` is what options.parse gives.
  unfoldable pub parse_options : Checked Options → Exec (World Json) (Option Options)
  parse_options parsed =
      checked other parsed >>= λ result. if result.help then usage else pure (some result)

  -- What goes out of scope after the services were made: the destructor of the pool of con_man.
  unfoldable pub closing : Exec (World Json) ℕ → Exec (World Json) ℕ
  closing m = catch m (λ e. close_pool H >> throw e) >>= λ r. close_pool H >> pure r

  -- The services and the scheduler.
  unfoldable pub serve : String → String → Exec (World Json) ℕ
  unfolding closing
  serve path filter =
      modify (λ w. record w { events = []; pool = make_pool })
      >> closing (run H entries depth path filter)

  -- The body of main.
  unfoldable pub with_options : Option Options → Exec (World Json) ℕ
  unfolding serve
  with_options none = pure 0
  with_options (some result) = do
    path ← checked other result.path
    host ← checked other result.host
    port ← checked other result.port
    filter ← checked other result.filter
    verbose ← checked other result.verbose
    serve path filter

  unfoldable pub main : Checked Options → Exec (World Json) ℕ
  unfolding with_options
  main parsed = exit_code H (parse_options parsed >>= with_options)
