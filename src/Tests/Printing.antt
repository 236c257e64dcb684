-- ===== src/Tests/Printing.antt =====
-- internal/printer/qlbackend: frames, problems and Send on scripted printers.
use raku_sika_hub.Prelude.{
  ℕ, ◌≤◌, ◌≡◌, refl, inl, inr, ◌⊎◌, true, false, some, List, [], ◌∷◌, ◌++◌, All, arith, replicate,
}
use raku_sika_hub.Job.Parse.{Job}
use raku_sika_hub.Status.{Status, problems, media_mismatch}
use raku_sika_hub.Frames.{Read, idle, received, extract, read_frames}
use raku_sika_hub.Frames.Chunks.{all_received, read_frames-extract}
use raku_sika_hub.Send.World.{
  Arrival, frame, timer, World, printed, failed, unconfirmed, write_all, drain, await_reply, write,
  write_chunks, chunks,
}
use raku_sika_hub.Send.Steps.{react, follow, finish, time_out, abort, fail, fail_problems}
use raku_sika_hub.Send.Run.{
  answered, silent, preflight, ask_again, act_on, unless_refused, transmit, refusals, data_for,
  send,
}
use raku_sika_hub.Send.Verdict.{completions}
use raku_sika_hub.Send.Cleared.{Discarded, data_sent}
use raku_sika_hub.Send.Whole.{IsPayload, send-printed, send-delivers, send-stopped}
use raku_sika_hub.Send.Prints.{IsWorking, IsQuiet, send-prints, send-unconfirmed}

abbrev status_of : ℕ → Status
status_of kind = record {
  err1 = 0;
  err2 = 0;
  media_width = 62;
  media_type = 0x0A;
  media_length = 0;
  kind = kind;
  phase = 0;
  notification = 0;
  text_color = 0;
  raw = [];
}

abbrev one_label : Job
one_label = record {
  pages = 1;
  media = record { known = true; kind = 0x0A; width_mm = 62 };
  two_color = false;
}

abbrev label_bytes : List ℕ
label_bytes = 0x67 ∷ 0 ∷ 0 ∷ 0x1A ∷ []

abbrev world_of : List Arrival → World
world_of s = record { arrivals = s; writes = []; ctx_done = false; sent = []; states = [] }

-- The first timer ends the reading of old notifications; the printer answers, prints, and is idle.
abbrev good_run : List Arrival
good_run =
    timer
    ∷ frame (status_of 0)
    ∷ frame (status_of 6)
    ∷ frame (status_of 1)
    ∷ frame (status_of 6)
    ∷ []

abbrev lost_run : List Arrival
lost_run = timer ∷ frame (status_of 0) ∷ frame (status_of 4) ∷ []

printed-good_run : (send 3 one_label label_bytes (world_of good_run)).0.outcome ≡ some printed
unfolding send preflight write_all drain ask_again await_reply act_on refusals problems
    media_mismatch unless_refused data_for transmit write write_chunks chunks follow react finish
    time_out abort fail fail_problems
printed-good_run = refl

failed-lost_run : (send 3 one_label label_bytes (world_of lost_run)).0.outcome ≡ some failed
unfolding send preflight write_all drain ask_again await_reply act_on refusals problems
    media_mismatch unless_refused data_for transmit write write_chunks chunks follow react finish
    time_out abort fail fail_problems
failed-lost_run = refl

unconfirmed-silence : (send 3 one_label label_bytes (world_of [])).0.outcome ≡ some unconfirmed
unfolding send preflight write_all drain ask_again await_reply act_on refusals problems
    media_mismatch unless_refused data_for transmit write write_chunks chunks follow react finish
    time_out abort fail fail_problems
unconfirmed-silence = refl

send-printed_example : 1 ≤ completions good_run
send-printed_example = send-printed 3 one_label label_bytes (world_of good_run) printed-good_run

send-delivers_example :
    (data_ : List ℕ) × IsPayload one_label label_bytes
      (preflight 3 (drain (world_of good_run))).0
      data_
    × (data_sent (send 3 one_label label_bytes (world_of good_run)).1.sent ≡ data_sent [] ++ data_)
send-delivers_example = send-delivers 3 one_label label_bytes (world_of good_run) printed-good_run

send-stopped_example :
    (data_sent (send 3 one_label label_bytes (world_of lost_run)).1.sent ≡ data_sent [])
    ⊎ Discarded (send 3 one_label label_bytes (world_of lost_run)).1.sent
send-stopped_example =
    send-stopped 3 one_label label_bytes (world_of lost_run) (inl failed-lost_run)

send-unconfirmed_example :
    ((preflight 3 (drain (world_of []))).0 ≡ silent)
    × (IsQuiet (preflight 3 (drain (world_of []))).1.arrivals
        × (data_sent (send 3 one_label label_bytes (world_of [])).1.sent
            ≡ data_sent [] ++ label_bytes))
send-unconfirmed_example =
    send-unconfirmed 3 one_label label_bytes (world_of []) unconfirmed-silence

-- What is left of the good run when the labels are awaited.
abbrev after_answer : World
after_answer = (preflight 3 (drain (world_of good_run))).1

abbrev work : List Arrival
work = frame (status_of 6) ∷ frame (status_of 1) ∷ []

asked-good_run : preflight 3 (drain (world_of good_run)) ≡ (answered (status_of 0), after_answer)
unfolding preflight write_all drain ask_again await_reply
asked-good_run = refl

fine-good_run : refusals one_label (status_of 0) ≡ []
unfolding refusals problems media_mismatch
fine-good_run = refl

writes-good_run : after_answer.writes ≡ []
unfolding preflight write_all drain ask_again await_reply
writes-good_run = refl

ctx-good_run : after_answer.ctx_done ≡ false
unfolding preflight write_all drain ask_again await_reply
ctx-good_run = refl

arrivals-good_run : after_answer.arrivals ≡ work ++ (frame (status_of 6) ∷ [])
unfolding preflight write_all drain ask_again await_reply
arrivals-good_run = refl

work-IsWorking : All IsWorking work
unfolding react problems
work-IsWorking = (inr refl, (inl refl, tt))

completions-work : 1 ≤ completions work
unfolding completions
completions-work = omega arith

send-prints_example : (send 3 one_label label_bytes (world_of good_run)).0.outcome ≡ some printed
send-prints_example =
    send-prints 3 one_label label_bytes (world_of good_run) after_answer (status_of 0) work
      (frame (status_of 6) ∷ []) asked-good_run fine-good_run writes-good_run ctx-good_run
      arrivals-good_run work-IsWorking completions-work

-- A frame whose first bytes come alone.
abbrev split_frame : List Read
split_frame =
    idle ∷ received (0x00 ∷ 0x80 ∷ []) ∷ received (0x20 ∷ replicate 30 0) ∷ Read.failed [] ∷ []

read_frames-extract_example : read_frames split_frame [] ≡ (extract (all_received split_frame)).0
read_frames-extract_example = read_frames-extract split_frame
