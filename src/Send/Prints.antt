-- ===== src/Send/Prints.antt =====
-- internal/printer/qlbackend/send.go: a job that the printer takes and prints, and one of which nothing is heard.
use raku_sika_hub.Prelude.{
  ℕ, ◌+◌, ◌≤◌, ◌≡◌, refl, sym, ◌∙◌, ◌⊎◌, inl, inr, Bool, true, false, some, List, [], ◌∷◌, ◌++◌,
  arith, ltb, ◌==◌, length,
}
use raku_sika_hub.Job.Parse.{Job}
use raku_sika_hub.Status.{Status, data_not_accepted, connection_lost, turned_off}
use raku_sika_hub.Send.World.{
  Arrival, frame, closed, timer, canceled, chunk, World, printed, unconfirmed, Result, write_end,
  chunks, write, write_chunks, drain, note_cancel, leave,
}
use raku_sika_hub.Send.Verdict.{completions}
use raku_sika_hub.Send.Cleared.{data_sent}
use raku_sika_hub.Prelude.{if_cases}
use raku_sika_hub.Send.Steps.{fail_problems, fail, abort, follow}
use raku_sika_hub.Send.Run.{
  answered, silent, preflight, refusals, data_for, transmit, new_result, unless_refused, act_on,
  send,
}
use raku_sika_hub.Send.Later.{write-arrivals}
use raku_sika_hub.Send.Delivery.{data-follow, write-data}
use raku_sika_hub.Send.Cases.{
  outcome-cancel, outcome-abort, transmit_cases, send_cases, asked-Later,
}
use mathlib.Core.Path.{subst}
use raku_sika_hub.Send.Induction.{follow_induction, time_out_cases}
use raku_sika_hub.Send.Steps.{fail_mid_job, finish, time_out, react, page_done, keep_waiting}
use raku_sika_hub.Status.{type_printing_completed}
use raku_sika_hub.Prelude.{All}

-- Frames of a printer at work: a label is done, or nothing is wrong.
abbrev pub IsWorking : Arrival → Type 0
IsWorking (frame st) = (react st ≡ page_done) ⊎ (react st ≡ keep_waiting)
IsWorking _ = ⊥

follow-done :
    (s : List Arrival) (job : Job) (h : Bool) (res : Result) (w : World)
    → job.pages ≤ res.completed
    → (follow s job h res w).0.outcome ≡ some printed
unfolding follow finish
follow-done [] job h res w e = ground arith
follow-done (frame st ∷ s) job h res w e = ground arith
follow-done (closed ∷ s) job h res w e = ground arith
follow-done (timer ∷ s) job h res w e = ground arith
follow-done (canceled ∷ s) job h res w e = ground arith

react-keep_waiting :
    (st : Status) → react st ≡ keep_waiting → (st.kind == type_printing_completed) ≡ false
unfolding react
react-keep_waiting st k = ground arith

-- A wait in which enough labels are reported, by a printer at work, ends printed, whatever comes then.
follow-prints :
    (s rest : List Arrival) (job : Job) (h : Bool) (res : Result) (w : World)
    → All IsWorking s
    → job.pages ≤ res.completed + completions s
    → (follow (s ++ rest) job h res w).0.outcome ≡ some printed
unfolding follow completions
follow-prints [] rest job h res w good e = follow-done rest job h res w (omega (arith, e))
follow-prints (frame st ∷ s) rest job h res w good e =
    let counted = record res { completed = res.completed + 1 } in
    let counting = follow-prints s rest job true counted w good.1 in
    let waiting = follow-prints s rest job true res w good.1 in
    if_cases (λ (r : Result × World). r.0.outcome ≡ some printed) (ltb res.completed job.pages)
      (λ _. elim good.0 [
        | inl p ↦ rw p (counting (ground arith))
        | inr k ↦ rw k (waiting (rw (react-keep_waiting st k) at e))
      ])
      (λ d. unfold finish in refl)
follow-prints (closed ∷ s) rest job h res w good e = absurd good.0
follow-prints (timer ∷ s) rest job h res w good e = absurd good.0
follow-prints (canceled ∷ s) rest job h res w good e = absurd good.0

write_chunks-taken :
    (cs : List (List ℕ)) (w : World)
    → (write_chunks cs (record w { writes = []; ctx_done = false })).0 ≡ true
unfolding write_chunks write_end
write_chunks-taken [] w = refl
write_chunks-taken (b ∷ cs) w = write_chunks-taken cs (record w { sent = chunk b ∷ w.sent })

write_chunks-accepted :
    (cs : List (List ℕ)) (w : World)
    → w.writes ≡ []
    → w.ctx_done ≡ false
    → (write_chunks cs w).0 ≡ true
write_chunks-accepted cs w e c = rw (e, c) (write_chunks-taken cs w)

transmit-prints :
    (job : Job) (bytes : List ℕ) (res : Result) (w : World) (s rest : List Arrival)
    → (write bytes w).0 ≡ true
    → w.arrivals ≡ s ++ rest
    → All IsWorking s
    → job.pages ≤ res.completed + completions s
    → (transmit job bytes res w).0.outcome ≡ some printed
unfolding transmit
transmit-prints job bytes res w s rest taken script working enough =
    let w' = (write bytes w).1 in
    rw taken (
      subst (λ a. (follow a job false res w').0.outcome ≡ some printed)
        (sym (write-arrivals bytes w ∙ script))
        (follow-prints s rest job false res w' working enough))

-- Liveness: if the printer answers, without a problem for which the job is refused, takes all that is
-- written, and reports enough labels while it works, then Send reports the job as printed.
pub send-prints :
    (retries : ℕ) (job : Job) (bytes : List ℕ) (w w' : World) (reply : Status)
    (s rest : List Arrival)
    → preflight retries (drain w) ≡ (answered reply, w')
    → refusals job reply ≡ []
    → w'.writes ≡ []
    → w'.ctx_done ≡ false
    → w'.arrivals ≡ s ++ rest
    → All IsWorking s
    → job.pages ≤ completions s
    → (send retries job bytes w).0.outcome ≡ some printed
unfolding send act_on unless_refused write
send-prints retries job bytes w w' reply s rest asked fine taken going script working enough =
    let all = data_for job reply bytes in
    let sent = write_chunks-accepted (chunks (length all) all) w' taken going in
    rw (asked, fine)
      (transmit-prints job all (new_result job) w' s rest sent script working
        (omega (arith, enough)))

-- A script whose next wait hears nothing.
abbrev pub IsQuiet : List Arrival → Type 0
IsQuiet [] = Unit {0}
IsQuiet (timer ∷ s) = Unit {0}
IsQuiet _ = ⊥

time_out-unconfirmed {ℓ} :
    {Q : Type ℓ} (job : Job) (heard : Bool) (res : Result) (w : World)
    → Q
    → (time_out job heard res w).0.outcome ≡ some unconfirmed
    → (res.muted ≡ true) × ((heard ≡ false) × Q)
time_out-unconfirmed {Q} job heard res w q =
    time_out_cases
      (λ r. r.0.outcome ≡ some unconfirmed → (res.muted ≡ true) × ((heard ≡ false) × Q)) job heard
      res w (λ e. let o = outcome-cancel res w in absurd (cc)) (λ m h _. (m, (h, q)))
      (λ _ e. absurd (unfold finish in ground arith))
      (λ ps e. absurd (unfold abort fail_problems in ground arith))

follow-unconfirmed :
    (script : List Arrival) (job : Job) (heard : Bool) (res : Result) (w : World)
    → (follow script job heard res w).0.outcome ≡ some unconfirmed
    → (res.muted ≡ true) × ((heard ≡ false) × IsQuiet script)
follow-unconfirmed script job heard res w =
    follow_induction
      (λ s h res w r.
        r.0.outcome ≡ some unconfirmed → (res.muted ≡ true) × ((h ≡ false) × IsQuiet s))
      job (λ s h res w _ e. absurd (unfold finish in ground arith))
      (λ h res w. time_out-unconfirmed job h res (leave [] w) tt)
      (λ s h res w. time_out-unconfirmed job h res (leave s w) tt)
      (λ s h res w e.
        let o = outcome-abort connection_lost res (leave (closed ∷ s) w) in absurd (cc))
      (λ s h res w e. let o = outcome-cancel res (note_cancel (leave s w)) in absurd (cc))
      (λ st s h res w r _ ih e. absurd (ground (arith, ih e)))
      (λ st s h res w r _ ih e. absurd (ground (arith, ih e)))
      (λ st s h res w e. let o = outcome-abort turned_off res (leave s w) in absurd (cc))
      (λ st s h res w ps e. absurd (unfold fail_mid_job fail_problems in ground arith)) script heard
      res w

transmit-unconfirmed :
    (job : Job) (bytes : List ℕ) (res : Result) (w : World)
    → (transmit job bytes res w).0.outcome ≡ some unconfirmed
    → (res.muted ≡ true)
      × (IsQuiet w.arrivals
          × (data_sent (transmit job bytes res w).1.sent ≡ data_sent w.sent ++ bytes))
transmit-unconfirmed job bytes res w =
    let w' = (write bytes w).1 in
    transmit_cases
      (λ r.
        r.0.outcome ≡ some unconfirmed
        → (res.muted ≡ true)
          × (IsQuiet w.arrivals × (data_sent r.1.sent ≡ data_sent w.sent ++ bytes)))
      job bytes res w
      (λ e h.
        let known = follow-unconfirmed w'.arrivals job false res w' h in
        (
          known.0,
          (
            subst IsQuiet (write-arrivals bytes w) known.1.1,
            data-follow w'.arrivals job false res w' ∙ write-data bytes w e,
          ),
        ))
      (λ h. let o = outcome-cancel res w' in absurd (cc))
      (λ h. let o = outcome-abort data_not_accepted res w' in absurd (cc))

-- Send leaves a job unconfirmed only if the printer did not answer the status request, nothing was
-- heard from it when the labels were awaited, and the job's data was handed to it whole.
pub send-unconfirmed :
    (retries : ℕ) (job : Job) (bytes : List ℕ) (w : World)
    → (send retries job bytes w).0.outcome ≡ some unconfirmed
    → ((preflight retries (drain w)).0 ≡ silent)
      × (IsQuiet (preflight retries (drain w)).1.arrivals
          × (data_sent (send retries job bytes w).1.sent ≡ data_sent w.sent ++ bytes))
send-unconfirmed retries job bytes w =
    let asked = preflight retries (drain w) in
    let before = (asked-Later retries w).0 in
    send_cases
      (λ r.
        r.0.outcome ≡ some unconfirmed
        → (asked.0 ≡ silent)
          × (IsQuiet asked.1.arrivals × (data_sent r.1.sent ≡ data_sent w.sent ++ bytes)))
      retries job bytes w (λ _ h. absurd (unfold fail fail_problems in ground arith))
      (λ e h.
        let known =
          transmit-unconfirmed job bytes (record (new_result job) { muted = true }) asked.1 h in
        (e, (known.1.0, rw (← before) known.1.1)))
      (λ reply p rest _ _ h. absurd (unfold fail_problems in ground arith))
      (λ reply _ _ h.
        let known =
          transmit-unconfirmed job (data_for job reply bytes) (new_result job) asked.1 h in
        absurd (ground (arith, known.0)))
