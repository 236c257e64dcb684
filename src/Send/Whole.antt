-- ===== src/Send/Whole.antt =====
-- internal/printer/qlbackend/send.go: what Send's verdicts say.
use raku_sika_hub.Prelude.{
  ℕ, ◌+◌, ◌≤◌, ◌≡◌, refl, ◌∙◌, ◌⊎◌, inl, inr, true, false, not, ◌&&◌, Bool-cases, if_cases, sym,
  some, List, ◌++◌, arith,
}
use mathlib.Core.Path.{subst}
use raku_sika_hub.Result.{ok, err}
use raku_sika_hub.Job.Parse.{Job, Fault}
use raku_sika_hub.Job.TwoColor.{to_two_color}
use raku_sika_hub.Status.{Status, two_color_roll, data_not_accepted}
use raku_sika_hub.Send.World.{World, printed, Result, write, drain}
use raku_sika_hub.Send.Verdict.{completions, follow-printed}
use raku_sika_hub.Send.Cleared.{
  Discarded, data_sent, IsStopped, abort-Discarded, cancel-Discarded, follow-Discarded,
}
use raku_sika_hub.Send.Steps.{fail_problems, fail}
use raku_sika_hub.Send.Run.{
  Answer, answered, silent, preflight, data_for, transmit, new_result, send,
}
use raku_sika_hub.Send.Later.{write-arrivals}
use raku_sika_hub.Send.Delivery.{data-follow, write-data}
use raku_sika_hub.Send.Cases.{
  outcome-cancel, outcome-abort, transmit_cases, send_cases, asked-Later,
}

transmit-printed :
    (job : Job) (bytes : List ℕ) (res : Result) (w : World)
    → (transmit job bytes res w).0.outcome ≡ some printed
    → job.pages ≤ res.completed + completions w.arrivals
transmit-printed job bytes res w =
    let w' = (write bytes w).1 in
    transmit_cases
      (λ r. r.0.outcome ≡ some printed → job.pages ≤ res.completed + completions w.arrivals) job
      bytes res w
      (λ _ h. rw (← write-arrivals bytes w) (follow-printed w'.arrivals job false res w' h))
      (λ h. let o = outcome-cancel res w' in absurd (cc))
      (λ h. let o = outcome-abort data_not_accepted res w' in absurd (cc))

-- Send reports a job as printed only if the printer reported at least as many labels as the job has pages.
pub send-printed :
    (retries : ℕ) (job : Job) (bytes : List ℕ) (w : World)
    → (send retries job bytes w).0.outcome ≡ some printed
    → job.pages ≤ completions w.arrivals
send-printed retries job bytes w =
    let w' = (preflight retries (drain w)).1 in
    let fewer = (asked-Later retries w).1 in
    send_cases (λ r. r.0.outcome ≡ some printed → job.pages ≤ completions w.arrivals) retries job
      bytes w (λ _ h. absurd (unfold fail fail_problems in ground arith))
      (λ _ h.
        omega (arith, transmit-printed job bytes (record (new_result job) { muted = true }) w' h))
      (λ reply p rest _ _ h. absurd (unfold fail_problems in ground arith))
      (λ reply _ _ h.
        omega (arith, transmit-printed job (data_for job reply bytes) (new_result job) w' h))

-- The data that a job stands for, after what the printer answered: with no answer, or if the roll is not
-- in two colours or the job already is, the data itself; else the data in two colours, or the data
-- itself if it has none.
pub data IsPayload (job : Job) (bytes : List ℕ) : Answer → List ℕ → Type 0 where
  unanswered : IsPayload job bytes silent bytes
  one_color :
      (reply : Status) → two_color_roll reply ≡ false → IsPayload job bytes (answered reply) bytes
  already : (reply : Status) → job.two_color ≡ true → IsPayload job bytes (answered reply) bytes
  converted :
      (reply : Status) (two : List ℕ)
      → two_color_roll reply ≡ true
      → job.two_color ≡ false
      → to_two_color bytes ≡ ok two
      → IsPayload job bytes (answered reply) two
  without_colors :
      (reply : Status) (e : Fault)
      → two_color_roll reply ≡ true
      → job.two_color ≡ false
      → to_two_color bytes ≡ err e
      → IsPayload job bytes (answered reply) bytes

data_for-IsPayload :
    (job : Job) (reply : Status) (bytes : List ℕ)
    → IsPayload job bytes (answered reply) (data_for job reply bytes)
unfolding data_for
data_for-IsPayload job reply bytes =
    if_cases (IsPayload job bytes (answered reply)) (two_color_roll reply && not job.two_color)
      (λ asked.
        (elim (to_two_color bytes)
            as (λ r.
              to_two_color bytes ≡ r
              → IsPayload job bytes (answered reply)
                  (elim r as (λ _. List ℕ) [ ok two ↦ two | err _ ↦ bytes ])) [
                    | ok two ↦ λ e. converted reply two (ground arith) (ground arith) e
                    | err e' ↦ λ e. without_colors reply e' (ground arith) (ground arith) e
                  ])
          refl)
      (λ other. elim (Bool-cases (two_color_roll reply)) [
        | inl two ↦ already reply (ground arith)
        | inr one ↦ one_color reply one
      ])

transmit-delivers :
    (job : Job) (bytes : List ℕ) (res : Result) (w : World)
    → (transmit job bytes res w).0.outcome ≡ some printed
    → data_sent (transmit job bytes res w).1.sent ≡ data_sent w.sent ++ bytes
transmit-delivers job bytes res w =
    let w' = (write bytes w).1 in
    transmit_cases
      (λ r. r.0.outcome ≡ some printed → data_sent r.1.sent ≡ data_sent w.sent ++ bytes) job bytes
      res w (λ e _. data-follow w'.arrivals job false res w' ∙ write-data bytes w e)
      (λ h. let o = outcome-cancel res w' in absurd (cc))
      (λ h. let o = outcome-abort data_not_accepted res w' in absurd (cc))

-- A job that Send reports as printed was handed to the printer whole: behind the data sent before
-- stands the job's data, in two colours exactly if the answer of the printer is of a roll in two colours,
-- the job is not, and the data can be rewritten.
pub send-delivers :
    (retries : ℕ) (job : Job) (bytes : List ℕ) (w : World)
    → (send retries job bytes w).0.outcome ≡ some printed
    → (data_ : List ℕ) × IsPayload job bytes (preflight retries (drain w)).0 data_
      × (data_sent (send retries job bytes w).1.sent ≡ data_sent w.sent ++ data_)
send-delivers retries job bytes w =
    let asked = preflight retries (drain w) in
    let before = (asked-Later retries w).0 in
    send_cases
      (λ r.
        r.0.outcome ≡ some printed
        → (data_ : List ℕ) × IsPayload job bytes asked.0 data_
          × (data_sent r.1.sent ≡ data_sent w.sent ++ data_))
      retries job bytes w (λ _ h. absurd (unfold fail fail_problems in ground arith))
      (λ e h. (
        bytes,
        subst (λ a. IsPayload job bytes a bytes) (sym e) unanswered,
        rw (← before) (transmit-delivers job bytes _ asked.1 h),
      ))
      (λ reply p rest _ _ h. absurd (unfold fail_problems in ground arith))
      (λ reply e _ h. (
        data_for job reply bytes,
        subst (λ a. IsPayload job bytes a (data_for job reply bytes)) (sym e)
            (data_for-IsPayload job reply bytes),
        rw (← before) (transmit-delivers job (data_for job reply bytes) _ asked.1 h),
      ))

transmit-stopped :
    (job : Job) (bytes : List ℕ) (res : Result) (w : World)
    → IsStopped (transmit job bytes res w).0.outcome
    → Discarded (transmit job bytes res w).1.sent
transmit-stopped job bytes res w =
    let w' = (write bytes w).1 in
    transmit_cases (λ r. IsStopped r.0.outcome → Discarded r.1.sent) job bytes res w
      (λ _. follow-Discarded w'.arrivals job false res w') (λ _. cancel-Discarded res w')
      (λ _. abort-Discarded (fail data_not_accepted res w'))

-- If Send reports a job as failed or canceled, either none of its data was handed to the printer,
-- or the printer was reset after the last of it, or the writes of all resets after it were refused.
pub send-stopped :
    (retries : ℕ) (job : Job) (bytes : List ℕ) (w : World)
    → IsStopped (send retries job bytes w).0.outcome
    → (data_sent (send retries job bytes w).1.sent ≡ data_sent w.sent)
      ⊎ Discarded (send retries job bytes w).1.sent
send-stopped retries job bytes w =
    let asked = preflight retries (drain w) in
    let before = (asked-Later retries w).0 in
    send_cases
      (λ r. IsStopped r.0.outcome → (data_sent r.1.sent ≡ data_sent w.sent) ⊎ Discarded r.1.sent)
      retries job bytes w (λ _ _. inl (unfold fail fail_problems in before))
      (λ _ h. inr (transmit-stopped job bytes (record (new_result job) { muted = true }) asked.1 h))
      (λ reply p rest _ _ _. inl (unfold fail_problems in before))
      (λ reply _ _ h.
        inr (transmit-stopped job (data_for job reply bytes) (new_result job) asked.1 h))
