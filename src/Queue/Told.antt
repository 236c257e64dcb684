-- ===== src/Queue/Told.antt =====
-- internal/printer: from the printer's frames to what the tablet is told. The backend's result reaches
-- the hub through the file that WriteResult and ReadResult share (qlbackend/results.go).
use raku_sika_hub.Prelude.{ℕ, ◌≡◌, Bool, Option, some, List}
use raku_sika_hub.Result
use raku_sika_hub.Send.World.{World}
use raku_sika_hub.Backend.{run_data}
use raku_sika_hub.Backend.Copied.{IsPrintedJob, run_data-printed}
use raku_sika_hub.Queue.Confirm.{PrintResult, done, confirm_with_printer, confirm_with_printer-done}

-- If the hub, given the backend's result of a run, ends a print request without an error as done,
-- then the data of the run was read as a job, and the printer reported at least as many labels as its
-- pages, times the copies.
pub told-done :
    (copies : ℕ) (input : Option (List ℕ)) (opened : Bool) (w : World) (before after : PrintResult)
    → confirm_with_printer (some (run_data copies input opened w).0) before ≡ Result.ok after
    → after.state ≡ done
    → IsPrintedJob copies input w
told-done copies input opened w before after h d =
    run_data-printed copies input opened w
      (confirm_with_printer-done (run_data copies input opened w).0 before after h d)
