-- ===== src/Send/Verdict.antt =====
-- internal/printer/qlbackend/send.go: what a verdict rests on.
use raku_sika_hub.Prelude.{
  ℕ, suc, ◌+◌, ◌≤◌, ◌≡◌, refl, Bool, true, some, List, [], ◌∷◌, arith, ◌==◌, if◌then◌else◌,
}
use raku_sika_hub.Job.Parse.{Job}
use raku_sika_hub.Status.{Status, Problem, type_printing_completed}
use raku_sika_hub.Send.World.{
  Arrival, frame, closed, timer, canceled, Write, ask, World, printed, failed, Result, write_all,
  probe, probe_arrivals, note_cancel, leave,
}
use raku_sika_hub.Send.Induction.{time_out_cases, follow_induction}
use raku_sika_hub.Send.Steps.{
  fail_problems, fail, abort, cancel, fail_mid_job, time_out, page_done, react, follow,
}

-- How often the printer reports a label as printed.
unfoldable pub completions : List Arrival → ℕ
completions [] = 0
completions (frame st ∷ rest) =
    let n = completions rest in if st.kind == type_printing_completed then suc n else n
completions (_ ∷ rest) = completions rest

probe_arrivals-completed :
    (script : List Arrival) (n : ℕ) (w : World)
    → (probe_arrivals script n w).0.completed ≤ n + completions script
unfolding probe_arrivals completions
probe_arrivals-completed [] n w = omega arith
probe_arrivals-completed (frame st ∷ rest) n w =
    ground (arith, probe_arrivals-completed rest n w, probe_arrivals-completed rest (n + 1) w)
probe_arrivals-completed (closed ∷ rest) n w = omega arith
probe_arrivals-completed (timer ∷ rest) n w = omega arith
probe_arrivals-completed (canceled ∷ rest) n w = probe_arrivals-completed rest n (note_cancel w)

arrivals-write_all : (b : Write) (w : World) → (write_all b w).1.arrivals ≡ w.arrivals
unfolding write_all
arrivals-write_all b w = refl

probe-completed : (w : World) → (probe w).0.completed ≤ completions w.arrivals
unfolding probe write_all
probe-completed w = ground (arith, probe_arrivals-completed w.arrivals 0 (write_all ask w).1)

-- Whatever ends a job otherwise, it does not end printed.
outcome-fail_problems :
    (ps : List Problem) (res : Result) (w : World)
    → (fail_problems ps res w).0.outcome ≡ some failed
unfolding fail_problems
outcome-fail_problems ps res w = refl

outcome-abort : (r : Result × World) → (abort r).0.outcome ≡ r.0.outcome
unfolding abort
outcome-abort r = refl

outcome-fail_mid_job :
    (ps : List Problem) (res : Result) (w : World) → (fail_mid_job ps res w).0.outcome ≡ some failed
unfolding fail_mid_job fail_problems
outcome-fail_mid_job ps res w = refl

-- `time_out` ends printed only if enough labels were reported.
time_out-printed :
    (job : Job) (heard : Bool) (res : Result) (w : World)
    → (time_out job heard res w).0.outcome ≡ some printed
    → job.pages ≤ res.completed + completions w.arrivals
time_out-printed job heard res w =
    time_out_cases
      (λ r. r.0.outcome ≡ some printed → job.pages ≤ res.completed + completions w.arrivals) job
      heard res w (unfold cancel in λ h. cc) (λ _ _ h. cc) (λ e h. omega (arith, probe-completed w))
      (λ ps h. unfold abort fail_problems in cc)

react-page_done : (st : Status) → react st ≡ page_done → (st.kind == type_printing_completed) ≡ true
unfolding react
react-page_done st e = ground arith

-- A job ends printed only if the printer reported as many labels as the job has, while it was
-- awaited: none is taken for printed because nothing was heard of it.
pub follow-printed :
    (script : List Arrival) (job : Job) (heard : Bool) (res : Result) (w : World)
    → (follow script job heard res w).0.outcome ≡ some printed
    → job.pages ≤ res.completed + completions script
unfolding completions
follow-printed script job heard res w =
    follow_induction
      (λ s h res w r. r.0.outcome ≡ some printed → job.pages ≤ res.completed + completions s) job
      (λ s h res w e _. omega arith) (λ h res w. time_out-printed job h res (leave [] w))
      (λ s h res w. time_out-printed job h res (leave s w))
      (λ s h res w e. unfold abort fail fail_problems in cc) (λ s h res w e. unfold cancel in cc)
      (λ st s h res w r e ih k. rw (react-page_done st e) (omega (arith, ih k)))
      (λ st s h res w r e ih k. ground (arith, ih k))
      (λ st s h res w e. unfold abort fail fail_problems in cc)
      (λ st s h res w ps e. unfold fail_mid_job fail_problems in cc) script heard res w
