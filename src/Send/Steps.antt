-- ===== src/Send/Steps.antt =====
-- internal/printer/qlbackend/send.go: how a job ends, and the wait for its labels.
use raku_sika_hub.Prelude.{
  ◌+◌, Bool, true, false, not, ◌&&◌, ◌||◌, Option, none, some, List, [], ◌∷◌, ◌++◌, ltb, ◌==◌,
  if◌then◌else◌, min, map,
}
use raku_sika_hub.Job.Parse.{Job}
use raku_sika_hub.Status.{
  Status, Problem, Message, Reason, Reason-discrete, other_error, problems, error_code,
  printer_silent, connection_lost, turned_off, no_completion, cannot_confirm, printed_message,
  canceled_message, type_printing_completed, type_error_occurred, type_notification,
  type_turned_off, type_phase_change,
}
use raku_sika_hub.Send.World.{
  Arrival, frame, closed, timer, canceled, reset, set_reasons, clear_reasons, World, printed,
  failed, unconfirmed, canceled_job, Result, write_all, drain, Probe, probe, note_cancel, leave,
}

-- The reasons of the problems, each once, in order.
abbrev pub same_reason : Reason → Reason → Bool
same_reason a b = elim (Reason-discrete a b) [ yes _ ↦ true | no _ ↦ false ]

abbrev pub has_reason : Reason → List Reason → Bool
has_reason r [] = false
has_reason r (x ∷ xs) = same_reason x r || has_reason r xs

unfoldable pub add_reasons : List Problem → List Reason → List Reason
add_reasons [] out = out
add_reasons (p ∷ ps) out =
    add_reasons ps (if has_reason p.reason out then out else out ++ (p.reason ∷ []))

unfoldable pub fail_problems : List Problem → Result → World → Result × World
fail_problems ps res w =
    let reasons = res.reasons ++ add_reasons ps [] in
    (
      record res { outcome = some failed; message = map (λ p. p.message) ps; reasons = reasons },
      record w { states = set_reasons reasons ∷ w.states },
    )

abbrev pub other : Message → Problem
other m = record { message = m; reason = other_error }

-- `fail` with the reason other-error, which all its calls give.
unfoldable pub fail : Message → Result → World → Result × World
unfolding fail_problems
fail m res w = fail_problems (other m ∷ []) res w

-- `abort` after a result: the printer's buffer is cleared and its notifications are read.
unfoldable pub abort : Result × World → Result × World
abort (res, w) = (res, drain (write_all reset w).1)

unfoldable pub cancel : Result → World → Result × World
cancel res w = (
  record res { outcome = some canceled_job; message = canceled_message ∷ [] },
  (write_all reset w).1,
)

unfoldable pub fail_mid_job : List Problem → Result → World → Result × World
fail_mid_job ps res w =
    let (pr, w') = probe (drain (write_all reset w).1) in
    fail_problems (elim pr.answer [ none ↦ ps ++ (other printer_silent ∷ []) | some _ ↦ ps ]) res w'

-- Behind the last label: settle, then the verdict.
unfoldable pub settle_arrivals : List Arrival → World → World
settle_arrivals [] w = leave [] w
settle_arrivals (frame st ∷ rest) w =
    let next = settle_arrivals rest w in
    if st.kind == type_phase_change && st.phase == 0x00 then leave rest w else next
settle_arrivals (closed ∷ rest) w = leave (closed ∷ rest) w
settle_arrivals (timer ∷ rest) w = leave rest w
settle_arrivals (canceled ∷ rest) w = settle_arrivals rest (note_cancel w)

unfoldable pub finish : List Arrival → Result → World → Result × World
unfolding settle_arrivals
finish arrivals res w =
    let w' = settle_arrivals arrivals w in
    (
      record res { outcome = some printed; muted = false; message = printed_message ∷ [] },
      record w' { states = clear_reasons ∷ w'.states },
    )

-- `ps` of TypeErrorOccurred: never empty.
abbrev pub error_problems : Status → List Problem
error_problems st = elim (problems st) [
  | [] ↦ other (error_code st.err1 st.err2) ∷ []
  | p ∷ ps ↦ p ∷ ps
]

-- A job that timed out is lost: with the problems that the printer answers, or with none.
unfoldable pub lost_job : Job → Option Status → Result → World → Result × World
lost_job job none res w = abort (fail (no_completion job.pages res.completed false) res w)
lost_job job (some st) res w = elim (problems st) [
  | [] ↦ abort (fail (no_completion job.pages res.completed true) res w)
  | p ∷ ps ↦ abort (fail_problems (p ∷ ps) res w)
]

-- After the probe, with the completions that came late counted in.
unfoldable pub after_probe : Job → Result → Probe × World → Result × World
unfolding lost_job
after_probe job res (pr, w) =
    let res' = record res { completed = min job.pages (res.completed + pr.completed) } in
    if res'.completed == job.pages then finish w.arrivals res' w else lost_job job pr.answer res' w

-- `case <-timeout.C`, with `heard` telling whether a frame came. ctx, if it is done, is taken first.
unfoldable pub time_out : Job → Bool → Result → World → Result × World
unfolding after_probe
time_out job heard res w =
    if w.ctx_done
    then cancel res w
    else if res.muted && not heard
    then (record res { outcome = some unconfirmed; message = cannot_confirm ∷ [] }, w)
    else after_probe job res (probe w)

-- What a frame means while labels are awaited.
pub data Reaction : Type 0 where
  page_done keep_waiting power_lost : Reaction
  stop_with : List Problem → Reaction

unfoldable pub react : Status → Reaction
react st =
    if st.kind == type_printing_completed
    then page_done
    else if st.kind == type_error_occurred
    then stop_with (error_problems st)
    else if st.kind == type_notification
    then keep_waiting
    else if st.kind == type_turned_off
    then power_lost
    else elim (problems st) [ [] ↦ keep_waiting | p ∷ ps ↦ stop_with (p ∷ ps) ]

-- The loop `for res.Completed < job.Pages`.
unfoldable pub follow : List Arrival → Job → Bool → Result → World → Result × World
follow [] job heard res w =
    if ltb res.completed job.pages then time_out job heard res (leave [] w) else finish [] res w
follow (frame st ∷ rest) job heard res w =
    let go_on = follow rest job true res w in
    let counted = follow rest job true (record res { completed = res.completed + 1 }) w in
    if ltb res.completed job.pages
    then elim (react st) [
      | page_done ↦ counted
      | keep_waiting ↦ go_on
      | power_lost ↦ abort (fail turned_off res (leave rest w))
      | stop_with ps ↦ fail_mid_job ps res (leave rest w)
    ]
    else finish (frame st ∷ rest) res w
follow (closed ∷ rest) job heard res w =
    if ltb res.completed job.pages
    then abort (fail connection_lost res (leave (closed ∷ rest) w))
    else finish (closed ∷ rest) res w
follow (timer ∷ rest) job heard res w =
    if ltb res.completed job.pages
    then time_out job heard res (leave rest w)
    else finish (timer ∷ rest) res w
follow (canceled ∷ rest) job heard res w =
    if ltb res.completed job.pages
    then cancel res (note_cancel (leave rest w))
    else finish (canceled ∷ rest) res w
