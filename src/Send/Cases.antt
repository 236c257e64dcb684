-- ===== src/Send/Cases.antt =====
-- internal/printer/qlbackend/send.go: the ways in which Send and the sending of the data end.
use raku_sika_hub.Prelude.{ℕ, ◌≡◌, refl, true, false, some, List, [], ◌∷◌}
use raku_sika_hub.Job.Parse.{Job}
use raku_sika_hub.Status.{Status, Problem, Message, data_not_accepted, data_not_accepted_yet}
use raku_sika_hub.Send.World.{World, failed, canceled_job, Result, write, drain}
use raku_sika_hub.Prelude.{if_cases}
use raku_sika_hub.Send.Steps.{fail_problems, fail, abort, cancel, follow}
use raku_sika_hub.Send.Run.{
  Answer, answered, silent, write_failed, preflight, refusals, data_for, transmit, new_result,
  unless_refused, act_on, send,
}
use raku_sika_hub.Send.Later.{Later, Later-trans, drain-Later, preflight-Later}

pub outcome-cancel : (res : Result) (w : World) → (cancel res w).0.outcome ≡ some canceled_job
unfolding cancel
outcome-cancel res w = refl

pub outcome-abort :
    (m : Message) (res : Result) (w : World) → (abort (fail m res w)).0.outcome ≡ some failed
unfolding abort fail fail_problems
outcome-abort m res w = refl

-- The ways in which the step that sends the data ends.
pub transmit_cases {ℓ} :
    (P : Result × World → Type ℓ) (job : Job) (bytes : List ℕ) (res : Result) (w : World)
    → ((write bytes w).0 ≡ true
        → P (follow (write bytes w).1.arrivals job false res (write bytes w).1))
    → P (cancel res (write bytes w).1)
    → P (abort (fail data_not_accepted res (write bytes w).1))
    → P (transmit job bytes res w)
unfolding transmit
transmit_cases P job bytes res w go c f =
    if_cases P (write bytes w).0 go (λ _. if_cases P (write bytes w).1.ctx_done (λ _. c) (λ _. f))

unless_refused_cases {ℓ} :
    (P : Result × World → Type ℓ) (ps : List Problem) (job : Job) (bytes : List ℕ) (w : World)
    → ((p : Problem) (rest : List Problem)
        → ps ≡ p ∷ rest
        → P (fail_problems (p ∷ rest) (new_result job) w))
    → (ps ≡ [] → P (transmit job bytes (new_result job) w))
    → P (unless_refused ps job bytes w)
unfolding unless_refused
unless_refused_cases P [] job bytes w r t = t refl
unless_refused_cases P (p ∷ ps) job bytes w r t = r p ps refl

act_on_cases {ℓ} :
    (P : Result × World → Type ℓ) (answer : Answer) (job : Job) (bytes : List ℕ) (w : World)
    → (answer ≡ write_failed → P (fail data_not_accepted_yet (new_result job) w))
    → (answer ≡ silent → P (transmit job bytes (record (new_result job) { muted = true }) w))
    → ((reply : Status) (p : Problem) (rest : List Problem)
        → answer ≡ answered reply
        → refusals job reply ≡ p ∷ rest
        → P (fail_problems (p ∷ rest) (new_result job) w))
    → ((reply : Status)
        → answer ≡ answered reply
        → refusals job reply ≡ []
        → P (transmit job (data_for job reply bytes) (new_result job) w))
    → P (act_on answer job bytes w)
unfolding act_on
act_on_cases P write_failed job bytes w f s r t = f refl
act_on_cases P silent job bytes w f s r t = s refl
act_on_cases P (answered reply) job bytes w f s r t =
    unless_refused_cases P (refusals job reply) job (data_for job reply bytes) w
      (λ p rest. r reply p rest refl) (t reply refl)

-- The four ways in which Send goes on after the status request.
pub send_cases {ℓ} :
    (P : Result × World → Type ℓ) (retries : ℕ) (job : Job) (bytes : List ℕ) (w : World)
    → ((preflight retries (drain w)).0 ≡ write_failed
        → P (fail data_not_accepted_yet (new_result job) (preflight retries (drain w)).1))
    → ((preflight retries (drain w)).0 ≡ silent
        → P (
            transmit job bytes
              (record (new_result job) { muted = true })
              (preflight retries (drain w)).1))
    → ((reply : Status) (p : Problem) (rest : List Problem)
        → (preflight retries (drain w)).0 ≡ answered reply
        → refusals job reply ≡ p ∷ rest
        → P (fail_problems (p ∷ rest) (new_result job) (preflight retries (drain w)).1))
    → ((reply : Status)
        → (preflight retries (drain w)).0 ≡ answered reply
        → refusals job reply ≡ []
        → P (
            transmit job
              (data_for job reply bytes)
              (new_result job)
              (preflight retries (drain w)).1))
    → P (send retries job bytes w)
unfolding send
send_cases P retries job bytes w f s r t =
    let asked = preflight retries (drain w) in act_on_cases P asked.0 job bytes asked.1 f s r t

-- What the status request leaves: the data that went out before it, and no more reports than there were.
pub asked-Later : (retries : ℕ) (w : World) → Later w (preflight retries (drain w)).1
asked-Later retries w =
    Later-trans w (drain w) (preflight retries (drain w)).1 (drain-Later w)
      (preflight-Later retries (drain w))
