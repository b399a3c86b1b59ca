-- ===== src/Tests/Processes.antt =====
-- Five processes, one of which has gone.
use mingyue_go.Base.{List, [], arith, codes, if◌then◌else◌, refl, ℕ, ◌+◌, ◌==◌, ◌^◌, ◌∷◌, ◌≡◌}
use mingyue_go.Errors.{Result, ok, err, os, not_exist}
use mingyue_go.Process.{ProcessInfo, ListOptions, listed, slice_panic, list_processes}
use mingyue_go.Process.Pages.{pages, pages-infos}

abbrev pids : List ℕ
pids = 1 ∷ 2 ∷ 3 ∷ 7 ∷ 9 ∷ []

abbrev info : ℕ → Result ProcessInfo
info pid =
    if pid == 3
    then err (os not_exist)
    else ok (record {
      pid = pid;
      name = codes "p";
      status = codes "S";
      cpu = 0;
      mem_rss = 0;
      user = codes "root";
      cmdline = [];
    })

abbrev second_page : ListOptions
second_page = record { limit = 2; page = 2 }

pages-infos_example :
    listed (pages info 2 pids 3) 5 ≡ list_processes (ok pids) info (record { limit = 0; page = 1 })
pages-infos_example = pages-infos info 2 pids 3 (omega arith) (omega arith) (omega arith)

abbrev far_page : ListOptions
far_page = record { limit = 2; page = 2 ^ 62 + 1 }

-- The start of this page wraps to a negative number, and List panics.
far_page_panics : list_processes (ok pids) info far_page ≡ slice_panic
unfolding list_processes
far_page_panics = refl

abbrev third_page : ListOptions
third_page = record { limit = 2; page = 3 }
