-- ===== src/Send/Cleared.antt =====
-- internal/printer/qlbackend/send.go: what a job leaves in the printer when it does not print.
use raku_sika_hub.Prelude.{
  ℕ, ◌+◌, inl, inr, if_cases, ◌≡◌, refl, sym, ◌∙◌, ◌⊎◌, Bool, Option, some, List, [], ◌∷◌, ◌++◌,
  arith,
}
use mathlib.Core.Path.{subst}
use raku_sika_hub.Job.Parse.{Job}
use raku_sika_hub.Status.{Problem}
use raku_sika_hub.Send.World.{
  Arrival, frame, closed, timer, canceled, WriteEnd, Write, reset, ask, reset_and_ask, chunk, World,
  Outcome, failed, canceled_job, Result, write_all, drain, drain_arrivals, probe, probe_arrivals,
  note_cancel, leave, refused, written, is_rejected, write_end,
}
use raku_sika_hub.Send.Induction.{time_out_cases, follow_induction, probed}
use raku_sika_hub.Send.Steps.{fail_problems, abort, cancel, fail_mid_job, finish, time_out, follow}

-- What became of the data in the printer's buffer: it may be there, a reset cleared it, or the writes of
-- all resets after it were refused.
pub data Buffer : Type 0 where
  holding cleared uncleared : Buffer

abbrev after_refused : Write → Buffer → Buffer
after_refused reset holding = uncleared
after_refused _ b = b

-- The newest of what was sent comes first.
unfoldable pub buffer : List Write → Buffer
buffer [] = holding
buffer (ask ∷ sent) = buffer sent
buffer (reset ∷ sent) = cleared
buffer (reset_and_ask ∷ sent) = cleared
buffer (chunk b ∷ sent) = holding
buffer (refused b ∷ sent) = after_refused b (buffer sent)

-- The printer was reset after the last data that it was sent, or would not take the reset.
abbrev pub Discarded : List Write → Type 0
Discarded sent = (buffer sent ≡ cleared) ⊎ (buffer sent ≡ uncleared)

-- The data that was handed to the printer, in order.
unfoldable pub data_sent : List Write → List ℕ
data_sent [] = []
data_sent (chunk b ∷ sent) = data_sent sent ++ b
data_sent (reset ∷ sent) = data_sent sent
data_sent (ask ∷ sent) = data_sent sent
data_sent (reset_and_ask ∷ sent) = data_sent sent
data_sent (refused b ∷ sent) = data_sent sent

abbrev pub IsStopped : Option Outcome → Type 0
IsStopped o = (o ≡ some failed) ⊎ (o ≡ some canceled_job)

sent-drain_arrivals : (s : List Arrival) (w : World) → (drain_arrivals s w).sent ≡ w.sent
unfolding drain_arrivals
sent-drain_arrivals [] w = refl
sent-drain_arrivals (frame st ∷ s) w = sent-drain_arrivals s w
sent-drain_arrivals (closed ∷ s) w = refl
sent-drain_arrivals (timer ∷ s) w = refl
sent-drain_arrivals (canceled ∷ s) w = sent-drain_arrivals s (note_cancel w)

pub sent-drain : (w : World) → (drain w).sent ≡ w.sent
unfolding drain
sent-drain w = sent-drain_arrivals w.arrivals w

-- A command that is written, or refused, is no data.
pub data-written :
    (b : Write) (e : WriteEnd) (sent : List Write)
    → data_sent (b ∷ sent) ≡ data_sent sent
    → data_sent (written b e ∷ sent) ≡ data_sent sent
unfolding data_sent
data-written b e sent k =
    if_cases (λ (c : Write). data_sent (c ∷ sent) ≡ data_sent sent) (is_rejected e) (λ _. refl)
      (λ _. k)

buffer-refused : (sent : List Write) → Discarded (refused reset ∷ sent)
unfolding buffer
buffer-refused sent =
    elim (buffer sent)
      as (λ b. (after_refused reset b ≡ cleared) ⊎ (after_refused reset b ≡ uncleared)) [
        | holding ↦ inr refl
        | cleared ↦ inl refl
        | uncleared ↦ inr refl
      ]

written-Discarded : (e : WriteEnd) (sent : List Write) → Discarded (written reset e ∷ sent)
unfolding buffer
written-Discarded e sent =
    if_cases (λ (c : Write). Discarded (c ∷ sent)) (is_rejected e) (λ _. buffer-refused sent)
      (λ _. inl refl)

asked-Discarded :
    (e : WriteEnd) (sent : List Write) → Discarded sent → Discarded (written ask e ∷ sent)
unfolding buffer
asked-Discarded e sent s =
    if_cases (λ (c : Write). Discarded (c ∷ sent)) (is_rejected e) (λ _. s) (λ _. s)

abbrev pub end_of : World → WriteEnd
end_of w = (write_end w.writes).0

pub sent-write_all :
    (b : Write) (w : World) → (write_all b w).1.sent ≡ written b (end_of w) ∷ w.sent
unfolding write_all
sent-write_all b w = refl

sent-probe_arrivals :
    (s : List Arrival) (n : ℕ) (w : World) → (probe_arrivals s n w).1.sent ≡ w.sent
unfolding probe_arrivals
sent-probe_arrivals [] n w = refl
sent-probe_arrivals (frame st ∷ s) n w =
    ground (arith, sent-probe_arrivals s n w, sent-probe_arrivals s (n + 1) w)
sent-probe_arrivals (closed ∷ s) n w = refl
sent-probe_arrivals (timer ∷ s) n w = refl
sent-probe_arrivals (canceled ∷ s) n w = sent-probe_arrivals s n (note_cancel w)

pub sent-probe : (w : World) → (probe w).1.sent ≡ written ask (end_of w) ∷ w.sent
unfolding probe write_all
sent-probe w = ground (arith, sent-probe_arrivals w.arrivals 0 (write_all ask w).1)

pub sent-abort : (r : Result × World) → (abort r).1.sent ≡ written reset (end_of r.1) ∷ r.1.sent
unfolding abort
sent-abort r = sent-drain (write_all reset r.1).1 ∙ sent-write_all reset r.1

pub abort-Discarded : (r : Result × World) → Discarded (abort r).1.sent
abort-Discarded r = rw (sent-abort r) (written-Discarded (end_of r.1) r.1.sent)

pub cancel-Discarded : (res : Result) (w : World) → Discarded (cancel res w).1.sent
unfolding cancel
cancel-Discarded res w = rw (sent-write_all reset w) (written-Discarded (end_of w) w.sent)

fail_mid_job-Discarded :
    (ps : List Problem) (res : Result) (w : World) → Discarded (fail_mid_job ps res w).1.sent
unfolding fail_mid_job fail_problems
fail_mid_job-Discarded ps res w =
    let cleared = (write_all reset w).1 in
    let before = sent-drain cleared ∙ sent-write_all reset w in
    subst Discarded (sym (sent-probe (drain cleared))) (
      asked-Discarded (end_of (drain cleared)) (drain cleared).sent
        (subst Discarded (sym before) (written-Discarded (end_of w) w.sent)))

time_out-Discarded :
    (job : Job) (heard : Bool) (res : Result) (w : World)
    → IsStopped (time_out job heard res w).0.outcome
    → Discarded (time_out job heard res w).1.sent
time_out-Discarded job heard res w =
    time_out_cases (λ r. IsStopped r.0.outcome → Discarded r.1.sent) job heard res w
      (λ _. cancel-Discarded res w) (λ _ _ h. absurd (ground arith))
      (λ _ h. absurd (unfold finish in ground arith))
      (λ ps _. abort-Discarded (fail_problems ps (probed job res w) (probe w).1))

-- A wait for labels that ends failed or canceled ends with the printer's buffer cleared, or the reset
-- refused.
pub follow-Discarded :
    (script : List Arrival) (job : Job) (heard : Bool) (res : Result) (w : World)
    → IsStopped (follow script job heard res w).0.outcome
    → Discarded (follow script job heard res w).1.sent
follow-Discarded script job heard res w =
    follow_induction (λ s h res w r. IsStopped r.0.outcome → Discarded r.1.sent) job
      (λ s h res w _ e. absurd (unfold finish in ground arith))
      (λ h res w. time_out-Discarded job h res (leave [] w))
      (λ s h res w. time_out-Discarded job h res (leave s w)) (λ s h res w _. abort-Discarded _)
      (λ s h res w _. cancel-Discarded res (note_cancel (leave s w))) (λ st s h res w r _ ih. ih)
      (λ st s h res w r _ ih. ih) (λ st s h res w _. abort-Discarded _)
      (λ st s h res w ps _. fail_mid_job-Discarded ps res (leave s w)) script heard res w
