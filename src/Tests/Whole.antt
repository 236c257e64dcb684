-- ===== src/Tests/Whole.antt =====
-- internal/printer: one blank label, from its image to the answer to the tablet.
use raku_sika_hub.Prelude.{ℕ, ◌≤◌, ◌≡◌, refl, inr, true, false, none, some, List, [], ◌∷◌, arith}
use raku_sika_hub.Result
use raku_sika_hub.Job.Parse.{parse_job}
use raku_sika_hub.Status.{problems, media_mismatch}
use raku_sika_hub.Raster.{Image, gray, ink_row, ink_columns, is_ink, continuous62, encode_pages}
use raku_sika_hub.Raster.Stream.{
  Fits, job_commands, pages_commands, page_commands, row_commands, setup_commands,
  encode_pages-render,
}
use raku_sika_hub.Job.Parse.Commands.{render, render_all}
use raku_sika_hub.Send.World.{
  Arrival, frame, timer, World, write_all, drain, await_reply, write, write_chunks, chunks,
}
use raku_sika_hub.Send.Steps.{react, follow, finish}
use raku_sika_hub.Send.Run.{
  send, preflight, ask_again, refusals, act_on, unless_refused, data_for, transmit,
}
use raku_sika_hub.Send.Verdict.{completions}
use raku_sika_hub.Backend.{run_data, append_copies}
use raku_sika_hub.Queue.Confirm.{PrintResult, done, sent_text, printed_text, confirm_with_printer}
use raku_sika_hub.Queue.Raw.{ql_800, raw_options, raw_data, raw_data-done}
use raku_sika_hub.Scale.Text.{same_bytes}

abbrev blank : Image
blank = record { width = 696; height = 150; at = λ x y. gray 255 }

blank-Fits : Fits continuous62 blank
blank-Fits = record { wide = inr refl; long = omega arith; short = omega arith }

abbrev blank_bytes : List ℕ
blank_bytes = render_all (job_commands continuous62 (raw_options false) (blank ∷ []))

encode-blank : encode_pages (blank ∷ []) continuous62 (raw_options false) ≡ Result.ok blank_bytes
encode-blank =
    encode_pages-render blank [] continuous62 (raw_options false) (omega arith) (blank-Fits, tt)

raw-blank : raw_data ql_800 (some blank) 1 false ≡ Result.ok blank_bytes
unfolding raw_data same_bytes
raw-blank = rw encode-blank refl

abbrev frame_of : ℕ → Arrival
frame_of kind = frame (record {
  err1 = 0;
  err2 = 0;
  media_width = 62;
  media_type = 0x0A;
  media_length = 0;
  kind = kind;
  phase = 0;
  notification = 0;
  text_color = 0;
  raw = [];
})

-- The printer answers, reports one label, and is idle again.
abbrev one_label_world : World
one_label_world = record {
  arrivals = timer ∷ frame_of 0 ∷ frame_of 1 ∷ frame_of 6 ∷ [];
  writes = [];
  ctx_done = false;
  sent = [];
  states = [];
}

abbrev queue_done : PrintResult
queue_done = record {
  state = done;
  job_id = b'7' ∷ [];
  message = sent_text;
  printer_state = [];
  job_state = none;
  diagnosis = none;
}

abbrev label_done : PrintResult
label_done = record queue_done { message = printed_text }

confirm-blank :
    confirm_with_printer (some (run_data 1 (some blank_bytes) true one_label_world).0) queue_done
    ≡ Result.ok label_done
unfolding confirm_with_printer run_data parse_job append_copies send preflight write_all drain
    ask_again await_reply act_on refusals problems media_mismatch unless_refused data_for transmit
    write write_chunks chunks follow react finish render_all render job_commands pages_commands
    page_commands row_commands setup_commands ink_row ink_columns is_ink
confirm-blank = refl

raw_data-done_example : 1 ≤ completions one_label_world.arrivals
raw_data-done_example =
    raw_data-done ql_800 blank 0 false true blank_bytes one_label_world queue_done label_done
      blank-Fits raw-blank confirm-blank refl
