-- ===== src/Tests/Hub.antt =====
-- internal/printer: the backend's run, the wait for the queue and the answer to the tablet, on small inputs.
use raku_sika_hub.Prelude.{ℕ, ◌≡◌, refl, true, false, none, some, List, [], ◌∷◌}
use raku_sika_hub.Result
use raku_sika_hub.Job.Parse.{Job, parse_job}
use raku_sika_hub.Status.{problems, media_mismatch}
use raku_sika_hub.Send.World.{
  Arrival, frame, timer, World, printed, write_all, drain, await_reply, write, write_chunks, chunks,
}
use raku_sika_hub.Send.Steps.{follow, react, finish}
use raku_sika_hub.Send.Run.{
  send, preflight, ask_again, act_on, refusals, unless_refused, data_for, transmit,
}
use raku_sika_hub.Backend.{append_copies, with_copies, run_data}
use raku_sika_hub.Backend.Copied.{parse_job-append_copies, IsPrintedJob, run_data-printed}
use raku_sika_hub.Queue.{QueueJob, queue_printing, Snapshot}
use raku_sika_hub.Queue.Wait.{Attempt}
use raku_sika_hub.Queue.Ages.{Seen}
use raku_sika_hub.Queue.Confirm.{PrintResult, done, sent_text, printed_text, confirm_with_printer}
use raku_sika_hub.Queue.Told.{told-done}

-- An empty raster line and a print command.
abbrev tiny_bytes : List ℕ
tiny_bytes = b'g' ∷ 0 ∷ 0 ∷ 0x1A ∷ []

abbrev tiny_job : Job
tiny_job = record {
  pages = 1;
  media = record { known = false; kind = 0; width_mm = 0 };
  two_color = false;
}

parse-tiny_bytes : parse_job tiny_bytes ≡ Result.ok tiny_job
unfolding parse_job
parse-tiny_bytes = refl

parse_job-append_copies_example :
    parse_job (append_copies 2 tiny_bytes tiny_bytes) ≡ Result.ok (with_copies 3 tiny_job)
parse_job-append_copies_example = parse_job-append_copies 2 tiny_bytes tiny_job parse-tiny_bytes

abbrev frame_of : ℕ → Arrival
frame_of kind = frame (record {
  err1 = 0;
  err2 = 0;
  media_width = 62;
  media_type = 0x0A;
  media_length = 0;
  kind = kind;
  phase = 0;
  notification = 0;
  text_color = 0;
  raw = [];
})

-- Two labels are reported.
abbrev printing_world : World
printing_world = record {
  arrivals = timer ∷ frame_of 0 ∷ frame_of 1 ∷ frame_of 1 ∷ frame_of 6 ∷ [];
  writes = [];
  ctx_done = false;
  sent = [];
  states = [];
}

printed-tiny : (run_data 2 (some tiny_bytes) true printing_world).0.outcome ≡ some printed
unfolding run_data parse_job append_copies send preflight write_all drain ask_again await_reply
    act_on refusals problems media_mismatch unless_refused data_for transmit write write_chunks
    chunks follow react finish
printed-tiny = refl

run_data-printed_example : IsPrintedJob 2 (some tiny_bytes) printing_world
run_data-printed_example = run_data-printed 2 (some tiny_bytes) true printing_world printed-tiny

abbrev submitted : PrintResult
submitted = record {
  state = done;
  job_id = b'7' ∷ [];
  message = sent_text;
  printer_state = [];
  job_state = none;
  diagnosis = none;
}

abbrev confirmed : PrintResult
confirmed = record submitted { message = printed_text }

confirm-tiny :
    confirm_with_printer (some (run_data 2 (some tiny_bytes) true printing_world).0) submitted
    ≡ Result.ok confirmed
unfolding confirm_with_printer run_data parse_job append_copies send preflight write_all drain
    ask_again await_reply act_on refusals problems media_mismatch unless_refused data_for transmit
    write write_chunks chunks follow react finish
confirm-tiny = refl

told-done_example : IsPrintedJob 2 (some tiny_bytes) printing_world
told-done_example =
    told-done 2 (some tiny_bytes) true printing_world submitted confirmed confirm-tiny refl

abbrev waiting_job : QueueJob
waiting_job = record {
  id = b'7' ∷ [];
  user = [];
  size = [];
  submitted_at = [];
  state = [];
  age_sec = 0;
}

-- Job 7 has been in the queue for four seconds, job 8 has left it.
abbrev two_seen : List Seen
two_seen = record { id = b'8' ∷ []; at = 500 } ∷ record { id = b'7' ∷ []; at = 1000 } ∷ []

-- The queue holds the job, cannot be read, and holds it no more.
abbrev three_reads : List Attempt
three_reads =
    record { jobs = waiting_job ∷ []; failed = false; took = 10 }
    ∷ record { jobs = []; failed = true; took = 10 }
    ∷ record { jobs = []; failed = false; took = 10 }
    ∷ []

abbrev slow_queue : Snapshot
slow_queue = record {
  printer_name = b'q' ∷ [];
  printer_state = [];
  queue_state = queue_printing;
  backend_ready = true;
  backend_error = [];
  jobs = waiting_job ∷ [];
  oldest_job_age_sec = 95;
}
