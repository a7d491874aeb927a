-- ===== src/Samples/Caches.antt =====
-- A catalog with a rescan, a download that completes, and what the pages show.
use ai_model_scheduler.Base.{lookup, arith, ◌+◌, pos, ◌≡◌, String, List, IsSome, [], ◌∷◌}
use ai_model_scheduler.Catalog.Cache.{
  replaced, worked, stored, scan_at, store_entries, start_locked, refreshed, begun, refresh,
  stepped, initial, System, Reachable,
}
use ai_model_scheduler.Catalog.Flights.{Reachable-IsSingle, IsSingle}
use ai_model_scheduler.Downloads.Transitions.{
  notify_transitions-turns, statuses_of, turns, count_of,
}
use ai_model_scheduler.Downloads.Service.{Download, notify_transitions, Watch}
use ai_model_scheduler.Server.Pages.{human_bytes}
use ai_model_scheduler.Samples.Benchmarks.{floats}
use ai_model_scheduler.Server.Units.{human_bytes-IsSome}
use ai_model_scheduler.Catalog.Progress.{Reachable-Eventually, IsQuiet, Eventually}
use ai_model_scheduler.Catalog.Spec.{Reachable-MovesTo, view, MovesTo}

abbrev rescanning : System
rescanning = (refresh 5 initial).1

rescanning-Reachable : Reachable 60 rescanning
rescanning-Reachable = stepped begun (refreshed initial 5)

Reachable-IsSingle_example : IsSingle rescanning
Reachable-IsSingle_example = Reachable-IsSingle 60 rescanning-Reachable

abbrev download : String → Download
download status = record {
  id = "ams-hf-download/dispatch-1";
  repo_id = "org/name";
  dest = "org/name";
  revision = "";
  include = "";
  status = status;
  submitted_at = pos 1;
  alloc_id = "a1";
}

abbrev observed : List Download
observed = download "pending" ∷ download "running" ∷ download "complete" ∷ download "complete" ∷ []

abbrev unseen : Watch
unseen = record { seen = []; fired = [] }

notify_transitions-turns_example :
    count_of "ams-hf-download/dispatch-1" (notify_transitions observed unseen).fired
    ≡ count_of "ams-hf-download/dispatch-1" []
      + turns
          (lookup "ams-hf-download/dispatch-1" [])
          (statuses_of "ams-hf-download/dispatch-1" observed)
notify_transitions-turns_example =
    notify_transitions-turns "ams-hf-download/dispatch-1" observed unseen

human_bytes-IsSome_example : IsSome (human_bytes floats (pos 5000000000))
human_bytes-IsSome_example = human_bytes-IsSome floats (pos 5000000000) (ground arith)

Reachable-Eventually_example : Eventually IsQuiet rescanning
Reachable-Eventually_example = Reachable-Eventually 60 rescanning rescanning-Reachable

abbrev stored_rescan : System
stored_rescan = store_entries [] 9 (record rescanning { scans = scan_at 0 stored ∷ [] })

Reachable-MovesTo_example : MovesTo (view rescanning) (view stored_rescan)
unfolding refresh start_locked
Reachable-MovesTo_example =
    Reachable-MovesTo 60 rescanning stored_rescan rescanning-Reachable
      (worked (replaced rescanning 9 0 [] [] []))
