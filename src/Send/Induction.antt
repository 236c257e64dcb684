-- ===== src/Send/Induction.antt =====
-- internal/printer/qlbackend/send.go: the ways in which the wait for the labels goes on and ends.
use raku_sika_hub.Prelude.{
  ◌+◌, ◌≤◌, ◌≡◌, refl, Bool, true, false, not, ◌&&◌, Option, none, some, List, [], ◌∷◌, arith, ltb,
  ◌==◌, min, if_cases,
}
use raku_sika_hub.Job.Parse.{Job}
use raku_sika_hub.Status.{
  Status, Problem, problems, cannot_confirm, no_completion, connection_lost, turned_off,
}
use raku_sika_hub.Send.World.{
  Arrival, frame, closed, timer, canceled, World, unconfirmed, Result, probe, note_cancel, leave,
}
use raku_sika_hub.Send.Steps.{
  fail_problems, fail, abort, cancel, fail_mid_job, finish, lost_job, after_probe, time_out,
  page_done, keep_waiting, power_lost, stop_with, react, follow,
}

lost_job_cases {ℓ} :
    (P : Result × World → Type ℓ) (job : Job) (answer : Option Status) (res : Result) (w : World)
    → ((ps : List Problem) → P (abort (fail_problems ps res w)))
    → P (lost_job job answer res w)
unfolding lost_job fail
lost_job_cases P job none res w l = l _
lost_job_cases P job (some st) res w l =
    elim (problems st)
      as (λ ps. P (elim ps [
        | [] ↦ abort (fail (no_completion job.pages res.completed true) res w)
        | p ∷ rest ↦ abort (fail_problems (p ∷ rest) res w)
      ])) [ [] ↦ l _ | p ∷ rest ↦ l _ ]

-- The result that a wait goes on with after the probe.
abbrev pub probed : Job → Result → World → Result
probed job res w = record res { completed = min job.pages (res.completed + (probe w).0.completed) }

-- The ways in which a wait that timed out ends.
pub time_out_cases {ℓ} :
    (P : Result × World → Type ℓ) (job : Job) (heard : Bool) (res : Result) (w : World)
    → P (cancel res w)
    → (res.muted ≡ true
        → heard ≡ false
        → P (record res { outcome = some unconfirmed; message = cannot_confirm ∷ [] }, w))
    → ((probed job res w).completed ≡ job.pages
        → P (finish (probe w).1.arrivals (probed job res w) (probe w).1))
    → ((ps : List Problem) → P (abort (fail_problems ps (probed job res w) (probe w).1)))
    → P (time_out job heard res w)
unfolding time_out after_probe
time_out_cases P job heard res w c u f l =
    if_cases P w.ctx_done (λ _. c)
      λ _.
        if_cases P (res.muted && not heard) (λ e. u (ground arith) (ground arith))
          λ _.
            if_cases P ((probed job res w).completed == job.pages) (λ e. f (ground arith))
              λ _. lost_job_cases P job (probe w).0.answer (probed job res w) (probe w).1 l

-- Whatever holds of each end of the wait, and is handed on by each turn, holds of the wait.
module _ {ℓ} (P : List Arrival → Bool → Result → World → Result × World → Type ℓ) (job : Job)
    (done : (s : List Arrival) (h : Bool) (res : Result) (w : World)
      → job.pages ≤ res.completed
      → P s h res w (finish s res w))
    (nothing : (h : Bool) (res : Result) (w : World)
      → P [] h res w (time_out job h res (leave [] w)))
    (timed : (s : List Arrival) (h : Bool) (res : Result) (w : World)
      → P (timer ∷ s) h res w (time_out job h res (leave s w)))
    (gone : (s : List Arrival) (h : Bool) (res : Result) (w : World)
      → P (closed ∷ s) h res w (abort (fail connection_lost res (leave (closed ∷ s) w))))
    (stopped : (s : List Arrival) (h : Bool) (res : Result) (w : World)
      → P (canceled ∷ s) h res w (cancel res (note_cancel (leave s w))))
    (counted : (st : Status) (s : List Arrival) (h : Bool) (res : Result) (w : World)
        (r : Result × World)
      → react st ≡ page_done
      → P s true (record res { completed = res.completed + 1 }) w r
      → P (frame st ∷ s) h res w r)
    (waited : (st : Status) (s : List Arrival) (h : Bool) (res : Result) (w : World)
        (r : Result × World)
      → react st ≡ keep_waiting
      → P s true res w r
      → P (frame st ∷ s) h res w r)
    (off : (st : Status) (s : List Arrival) (h : Bool) (res : Result) (w : World)
      → P (frame st ∷ s) h res w (abort (fail turned_off res (leave s w))))
    (broken : (st : Status) (s : List Arrival) (h : Bool) (res : Result) (w : World)
        (ps : List Problem)
      → P (frame st ∷ s) h res w (fail_mid_job ps res (leave s w))) where
  pub follow_induction :
      (s : List Arrival) (h : Bool) (res : Result) (w : World) → P s h res w (follow s job h res w)
  unfolding follow
  follow_induction [] h res w =
      if_cases (P [] h res w) (ltb res.completed job.pages) (λ _. nothing h res w)
        (λ e. done [] h res w (ground arith))
  follow_induction (frame st ∷ s) h res w =
      let counting = follow_induction s true (record res { completed = res.completed + 1 }) w in
      let waiting = follow_induction s true res w in
      if_cases (P (frame st ∷ s) h res w) (ltb res.completed job.pages)
        (λ _.
          (elim (react st)
              as (λ a.
                react st ≡ a
                → P (frame st ∷ s) h res w (elim a [
                  | page_done ↦ follow s job true (record res { completed = res.completed + 1 }) w
                  | keep_waiting ↦ follow s job true res w
                  | power_lost ↦ abort (fail turned_off res (leave s w))
                  | stop_with ps ↦ fail_mid_job ps res (leave s w)
                ])) [
                  | page_done ↦ λ e. counted st s h res w _ e counting
                  | keep_waiting ↦ λ e. waited st s h res w _ e waiting
                  | power_lost ↦ λ e. off st s h res w
                  | stop_with ps ↦ λ e. broken st s h res w ps
                ])
            refl)
        (λ e. done (frame st ∷ s) h res w (ground arith))
  follow_induction (closed ∷ s) h res w =
      if_cases (P (closed ∷ s) h res w) (ltb res.completed job.pages) (λ _. gone s h res w)
        (λ e. done (closed ∷ s) h res w (ground arith))
  follow_induction (timer ∷ s) h res w =
      if_cases (P (timer ∷ s) h res w) (ltb res.completed job.pages) (λ _. timed s h res w)
        (λ e. done (timer ∷ s) h res w (ground arith))
  follow_induction (canceled ∷ s) h res w =
      if_cases (P (canceled ∷ s) h res w) (ltb res.completed job.pages) (λ _. stopped s h res w)
        (λ e. done (canceled ∷ s) h res w (ground arith))
