-- ===== src/Backend.antt =====
-- internal/printer/qlbackend/main.go: a run of the CUPS backend, with its arguments, the data that it
-- reads and the device that it opens given.
pub mod Copied
pub mod Results
use raku_sika_hub.Prelude.{
  ℕ, zero, suc, ◌+◌, ◌-◌, ◌*◌, Bool, true, false, not, ◌&&◌, ◌||◌, Option, none, some, List, [],
  ◌∷◌, ◌++◌, ltb, ◌==◌, if◌then◌else◌, length,
}
use raku_sika_hub.Result
use raku_sika_hub.Job.Parse.{Job, empty_job, parse_job}
use raku_sika_hub.Status.{data_unreadable, not_a_raster_job, device_not_opened}
use raku_sika_hub.Send.World.{World, Outcome, failed, Result}
use raku_sika_hub.Send.Steps.{fail}
use raku_sika_hub.Send.Run.{new_result, send}

abbrev pub max_job_bytes : ℕ
max_job_bytes = 67108864

-- BusyRetries of NewSender.
abbrev pub busy_retries : ℕ
busy_retries = 5

-- `data = append(data, one...)`, n times.
unfoldable pub append_copies : ℕ → List ℕ → List ℕ → List ℕ
append_copies zero bytes one = bytes
append_copies (suc n) bytes one = append_copies n (bytes ++ one) one

-- How often the data is printed: CUPS leaves copies to a backend that is given a file, the sixth
-- argument. A number that cannot be read counts as 0.
abbrev pub copies_of : ℕ → ℕ → ℕ
copies_of args copies = if args == 6 && ltb 1 copies then copies else 1

abbrev pub with_copies : ℕ → Job → Job
with_copies copies job = record job { pages = job.pages * copies }

unfoldable pub run_parsed : ℕ → Job → List ℕ → Bool → World → Result × World
run_parsed copies job bytes opened w =
    let all = append_copies (copies - 1) bytes bytes in
    if opened
    then send busy_retries (with_copies copies job) all w
    else fail device_not_opened (new_result (with_copies copies job)) w

-- From the data on; it is none if the file or stdin cannot be read.
unfoldable pub run_data : ℕ → Option (List ℕ) → Bool → World → Result × World
unfolding run_parsed
run_data copies none opened w = fail data_unreadable (new_result empty_job) w
run_data copies (some bytes) opened w =
    if ltb max_job_bytes (length bytes)
    then fail data_unreadable (new_result empty_job) w
    else elim (parse_job bytes) [
      | Result.err _ ↦ fail not_a_raster_job (new_result empty_job) w
      | Result.ok job ↦ run_parsed copies job bytes opened w
    ]

abbrev pub is_failed : Option Outcome → Bool
is_failed (some failed) = true
is_failed _ = false

-- `run`: the exit code, and the result that is written, if the arguments ask for a job.
unfoldable pub run_backend : ℕ → ℕ → Option (List ℕ) → Bool → World → ℕ × Option (Result × World)
unfolding run_data
run_backend args copies input opened w =
    let ended = run_data (copies_of args copies) input opened w in
    if args == 0
    then (0, none)
    else if not (args == 5 || args == 6)
    then (1, none)
    else (if is_failed ended.0.outcome then 1 else 0, some ended)
