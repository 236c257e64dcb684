-- ===== src/Queue/Wait.antt =====
-- internal/printer/queue_wait.go, and verifySubmittedJob of brother.go. Times are milliseconds.
use raku_sika_hub.Prelude.{
  ℕ, zero, suc, ◌+◌, ◌-◌, ◌≤◌, ◌<◌, ◌≡◌, ◌⊎◌, Bool, true, false, not, ◌&&◌, Option, none, some,
  List, [], ◌∷◌, leb, if◌then◌else◌, min,
}
use raku_sika_hub.Queue.{QueueJob, find_job}

-- One call of `read`: what it returns, and how long it takes.
pub record Attempt : Type 0 where
  pub jobs : List QueueJob
  pub failed : Bool
  pub took : ℕ

-- What the wait returns, and when: (jobs, nil) or (jobs, err).
pub record Waited : Type 0 where
  pub jobs : List QueueJob
  pub failed : Bool
  pub at : ℕ

-- Behind the script's end reads fail at once.
abbrev pub next_attempt : List Attempt → Attempt × List Attempt
next_attempt [] = (record { jobs = []; failed = true; took = 0 }, [])
next_attempt (a ∷ as_) = (a, as_)

abbrev pub is_found : List QueueJob → List ℕ → Bool
is_found jobs id = elim (find_job jobs id) [ none ↦ false | some _ ↦ true ]

abbrev pub poll_interval : Bool → ℕ
poll_interval failed = if failed then 2000 else 250

-- The loop, from the time `now`; each sleep takes a millisecond at least, as much fuel as the time
-- that is left is enough.
unfoldable pub wait_loop : ℕ → ℕ → List ℕ → List Attempt → ℕ → Option Waited
wait_loop zero deadline id attempts now = none
wait_loop (suc fuel) deadline id attempts now =
    let (a, rest) = next_attempt attempts in
    let t = now + a.took in
    let again = wait_loop fuel deadline id rest (t + min (poll_interval a.failed) (deadline - t)) in
    if not a.failed && not (is_found a.jobs id)
    then some (record { jobs = a.jobs; failed = false; at = t })
    else if leb deadline t
    then some (record { jobs = a.jobs; failed = a.failed; at = t })
    else again

unfoldable pub wait_for_queue_job : List ℕ → ℕ → List Attempt → ℕ → Option Waited
wait_for_queue_job id timeout attempts now = wait_loop (suc timeout) (now + timeout) id attempts now

-- The n-th call of `read`.
abbrev pub nth_attempt : ℕ → List Attempt → Attempt
nth_attempt zero attempts = (next_attempt attempts).0
nth_attempt (suc n) attempts = nth_attempt n (next_attempt attempts).1

-- A reading that says that the job has left the queue.
abbrev pub SaysGone : List ℕ → Attempt → Type 0
SaysGone id a = (a.failed ≡ false) × (is_found a.jobs id ≡ false)

-- What the wait returns is what the n-th call read. No call before it said that the job is gone, and it
-- said so itself or ended at the deadline or behind it.
pub record IsVerdict (id : List ℕ) (deadline : ℕ) (attempts : List Attempt) (r : Option Waited)
    : Type 0 where
  pub calls : ℕ
  pub waited : Waited
  pub returned : r ≡ some waited
  pub same_jobs : waited.jobs ≡ (nth_attempt calls attempts).jobs
  pub same_failed : waited.failed ≡ (nth_attempt calls attempts).failed
  pub is_first : (i : ℕ) → i < calls → ¬ SaysGone id (nth_attempt i attempts)
  pub is_over : SaysGone id (nth_attempt calls attempts) ⊎ (deadline ≤ waited.at)
