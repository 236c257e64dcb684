-- ===== src/Send/Delivery.antt =====
-- internal/printer/qlbackend/send.go: what of the job's data reaches the printer.
use raku_sika_hub.Prelude.{
  ℕ, zero, suc, ◌≤◌, ◌≡◌, refl, sym, ap, ◌∙◌, Bool, true, false, List, [], ◌∷◌, ◌++◌, arith, length,
  take, drop, length-drop, take-append-drop,
}
use mathlib.Core.List.{append_assoc, append-nil}
use raku_sika_hub.Job.Parse.{Job}
use raku_sika_hub.Status.{Problem, connection_lost, turned_off}
use raku_sika_hub.Send.World.{
  Arrival, frame, closed, timer, canceled, accepted, rejected, interrupted, reset, ask, chunk,
  World, Result, write_all, write_end, chunk_size, chunks, write, write_chunks, drain, note_cancel,
  leave,
}
use raku_sika_hub.Send.Cleared.{data_sent, sent-drain, sent-write_all, data-written, end_of}
use raku_sika_hub.Prelude.{if_cases}
use raku_sika_hub.Send.Steps.{fail_problems, fail, abort, cancel, follow}
use raku_sika_hub.Send.Induction.{follow_induction, time_out_cases, probed}
use raku_sika_hub.Send.Steps.{fail_mid_job, finish, settle_arrivals, time_out}
use raku_sika_hub.Send.World.{probe}
use raku_sika_hub.Send.Cleared.{sent-abort, sent-probe}

-- The wait for the labels hands no data to the printer.
data-abort : (r : Result × World) → data_sent (abort r).1.sent ≡ data_sent r.1.sent
unfolding data_sent
data-abort r = ap data_sent (sent-abort r) ∙ data-written reset (end_of r.1) r.1.sent refl

data-cancel : (res : Result) (w : World) → data_sent (cancel res w).1.sent ≡ data_sent w.sent
unfolding data_sent cancel
data-cancel res w =
    ap data_sent (sent-write_all reset w) ∙ data-written reset (end_of w) w.sent refl

data-probe : (w : World) → data_sent (probe w).1.sent ≡ data_sent w.sent
unfolding data_sent
data-probe w = ap data_sent (sent-probe w) ∙ data-written ask (end_of w) w.sent refl

data-fail_mid_job :
    (ps : List Problem) (res : Result) (w : World)
    → data_sent (fail_mid_job ps res w).1.sent ≡ data_sent w.sent
unfolding data_sent fail_mid_job fail_problems
data-fail_mid_job ps res w =
    let cleared = (write_all reset w).1 in
    data-probe (drain cleared)
    ∙ ap data_sent (sent-drain cleared)
    ∙ ap data_sent (sent-write_all reset w)
    ∙ data-written reset (end_of w) w.sent refl

data-settle : (s : List Arrival) (w : World) → (settle_arrivals s w).sent ≡ w.sent
unfolding settle_arrivals
data-settle [] w = refl
data-settle (frame st ∷ s) w = ground (arith, data-settle s w)
data-settle (closed ∷ s) w = refl
data-settle (timer ∷ s) w = refl
data-settle (canceled ∷ s) w = data-settle s (note_cancel w)

data-finish :
    (s : List Arrival) (res : Result) (w : World)
    → data_sent (finish s res w).1.sent ≡ data_sent w.sent
unfolding finish
data-finish s res w = ap data_sent (data-settle s w)

data-time_out :
    (job : Job) (heard : Bool) (res : Result) (w : World)
    → data_sent (time_out job heard res w).1.sent ≡ data_sent w.sent
data-time_out job heard res w =
    time_out_cases (λ r. data_sent r.1.sent ≡ data_sent w.sent) job heard res w (data-cancel res w)
      (λ _ _. refl)
      (λ _. data-finish (probe w).1.arrivals (probed job res w) (probe w).1 ∙ data-probe w)
      (λ ps.
        data-abort (fail_problems ps (probed job res w) (probe w).1)
        ∙ (unfold fail_problems in data-probe w))

pub data-follow :
    (script : List Arrival) (job : Job) (heard : Bool) (res : Result) (w : World)
    → data_sent (follow script job heard res w).1.sent ≡ data_sent w.sent
data-follow script job heard res w =
    follow_induction (λ s h res w r. data_sent r.1.sent ≡ data_sent w.sent) job
      (λ s h res w _. data-finish s res w) (λ h res w. data-time_out job h res (leave [] w))
      (λ s h res w. data-time_out job h res (leave s w))
      (λ s h res w.
        data-abort (fail connection_lost res (leave (closed ∷ s) w))
        ∙ (unfold fail fail_problems in refl))
      (λ s h res w. data-cancel res (note_cancel (leave s w))) (λ st s h res w r _ ih. ih)
      (λ st s h res w r _ ih. ih)
      (λ st s h res w.
        data-abort (fail turned_off res (leave s w)) ∙ (unfold fail fail_problems in refl))
      (λ st s h res w ps. data-fail_mid_job ps res (leave s w)) script heard res w

-- The chunks are the data, cut.
abbrev joined : List (List ℕ) → List ℕ
joined [] = []
joined (c ∷ cs) = c ++ joined cs

joined-chunks :
    (fuel : ℕ) (bytes : List ℕ) → length bytes ≤ fuel → joined (chunks fuel bytes) ≡ bytes
unfolding chunks
joined-chunks zero [] h = refl
joined-chunks zero (b ∷ bytes) h = absurd (omega arith)
joined-chunks (suc fuel) [] h = refl
joined-chunks (suc fuel) (b ∷ bytes) h =
    let rest = drop chunk_size (b ∷ bytes) in
    ap (◌++◌ (take chunk_size (b ∷ bytes)))
      (joined-chunks fuel rest (omega (arith, length-drop chunk_size (b ∷ bytes))))
    ∙ take-append-drop chunk_size (b ∷ bytes)

write_chunks-data :
    (cs : List (List ℕ)) (w : World)
    → (write_chunks cs w).0 ≡ true
    → data_sent (write_chunks cs w).1.sent ≡ data_sent w.sent ++ joined cs
unfolding write_chunks data_sent
write_chunks-data [] w = λ _. sym (append-nil (data_sent w.sent))
write_chunks-data (c ∷ cs) w =
    let es = (write_end w.writes).1 in
    let next = record w { writes = es; sent = chunk c ∷ w.sent } in
    let rest = write_chunks-data cs next in
    if_cases
      (λ (r : Bool × World). r.0 ≡ true → data_sent r.1.sent ≡ data_sent w.sent ++ (c ++ joined cs))
      w.ctx_done (λ _ h. absurd (cc))
      λ _.
        elim (write_end w.writes).0
          as (λ e.
            let r = (elim e as (λ _. Bool × World) [
              | interrupted ↦ (false, record w { writes = es; ctx_done = true })
              | rejected ↦ (false, next)
              | accepted ↦ write_chunks cs next
            ]) in
            r.0 ≡ true → data_sent r.1.sent ≡ data_sent w.sent ++ (c ++ joined cs)) [
              | interrupted ↦ λ h. absurd (cc)
              | rejected ↦ λ h. absurd (cc)
              | accepted ↦ λ h. rest h ∙ append_assoc (data_sent w.sent) c (joined cs)
            ]

pub write-data :
    (bytes : List ℕ) (w : World)
    → (write bytes w).0 ≡ true
    → data_sent (write bytes w).1.sent ≡ data_sent w.sent ++ bytes
unfolding write
write-data bytes w h =
    write_chunks-data (chunks (length bytes) bytes) w h
    ∙ ap (◌++◌ (data_sent w.sent)) (joined-chunks (length bytes) bytes (omega arith))
