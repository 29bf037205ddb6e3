-- ===== src/Crawler/Tests.antt =====
-- The crawler on a sample directory (src/crawler.hpp).
use cliot.Prelude.{All, refl, [], ◌∷◌, here, there}
use cliot.Exec.Triple.{Post}
use cliot.Runner.Callbacks.Local.{NotFlow}
use cliot.Samples.Hosts.{world}
use cliot.Samples.Directories.{site, entries, directory, file}
use cliot.Flow.FilePath.{◌//◌}
use cliot.Crawler.{crawl, contains_text}
use cliot.Crawler.Kept.{HasName}
use cliot.Crawler.Sorted.{Ascending, crawl-Ascending}
use cliot.Crawler.Complete.{crawl-HasName}
use cliot.Crawler.Found.{IsSelected, crawl-IsSelected}

crawl-IsSelected_example :
    Post
      (λ flows _. All (IsSelected entries ("" // "flows") "o") flows)
      (λ e _. NotFlow e)
      (λ _. ⊥)
      (crawl site entries "" "o" world).0
      (crawl site entries "" "o" world).1
crawl-IsSelected_example = crawl-IsSelected site entries "" "o" world

crawl-Ascending_example :
    Post
      (λ flows _. Ascending flows)
      (λ _ _. Unit {0})
      (λ _. Unit {0})
      (crawl site entries "" "" world).0
      (crawl site entries "" "" world).1
crawl-Ascending_example = crawl-Ascending site entries "" "" world

crawl-HasName_example :
    Post
      (λ flows _. HasName "hello" flows)
      (λ _ _. Unit {0})
      (λ _. Unit {0})
      (crawl site entries "" "" world).0
      (crawl site entries "" "" world).1
unfolding ◌//◌ contains_text
crawl-HasName_example =
    crawl-HasName site entries "" "" (directory "flows/hello") (file "flows/hello/script.yaml")
      (directory "flows/wrong" ∷ directory "flows/.git" ∷ directory "flows/hello" ∷ [])
      (file "flows/hello/script.yaml" ∷ file "flows/hello/ask.json" ∷ []) world refl
      (there (there here)) refl refl here refl refl refl
