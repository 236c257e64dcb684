-- ===== src/Queue/Ages.antt =====
-- internal/printer/brother.go: annotateJobAges, and the ledger jobSeen of the jobs in the queue with the
-- time at which each was seen first. Times are milliseconds; the map is a list of its entries.
use raku_sika_hub.Prelude.{
  ℕ, ◌-◌, ◌/◌, ◌≡◌, refl, ap, ◌∙◌, Bool, false, ◌||◌, Option, none, some, List, [], ◌∷◌, arith,
  if◌then◌else◌, ltb, Bool-cases, inl, inr,
}
use mathlib.Core.Path.{subst}
use raku_sika_hub.Scale.Text.{same_bytes}
use raku_sika_hub.Strings.Compare.{same_bytes-eq, same_bytes_refl}
use raku_sika_hub.Queue.{QueueJob}

-- An entry: the id of a job, and when it was seen first.
pub record Seen : Type 0 where
  pub id : List ℕ
  pub at : ℕ

unfoldable pub first_seen : List Seen → List ℕ → Option ℕ
first_seen [] id = none
first_seen (s ∷ ledger) id =
    let rest = first_seen ledger id in if same_bytes s.id id then some s.at else rest

abbrev pub is_live : List QueueJob → List ℕ → Bool
is_live [] id = false
is_live (job ∷ jobs) id = same_bytes job.id id || is_live jobs id

abbrev pub seen_or : ℕ → Option ℕ → ℕ
seen_or now none = now
seen_or now (some t) = t

-- The ledger with a job that it does not hold yet.
unfoldable pub note_job : ℕ → List ℕ → List Seen → List Seen
note_job now id ledger = elim (first_seen ledger id) [
  | none ↦ record { id = id; at = now } ∷ ledger
  | some t ↦ ledger
]

-- What the loop over the jobs leaves: the jobs with their ages, the ledger, the greatest age.
pub record Aged : Type 0 where
  pub jobs : List QueueJob
  pub ledger : List Seen
  pub oldest : ℕ

abbrev pub age_of : ℕ → List ℕ → List Seen → ℕ
age_of now id ledger = (now - seen_or now (first_seen ledger id)) / 1000

unfoldable pub age_jobs : ℕ → List QueueJob → List Seen → ℕ → Aged
unfolding note_job
age_jobs now [] ledger oldest = record { jobs = []; ledger = ledger; oldest = oldest }
age_jobs now (job ∷ jobs) ledger oldest =
    let age = age_of now job.id ledger in
    let rest =
      age_jobs now jobs (note_job now job.id ledger) (if ltb oldest age then age else oldest) in
    record rest { jobs = record job { age_sec = age } ∷ rest.jobs }

-- The jobs that have left the queue are forgotten.
unfoldable pub forget : List QueueJob → List Seen → List Seen
forget jobs [] = []
forget jobs (s ∷ ledger) =
    let rest = forget jobs ledger in if is_live jobs s.id then s ∷ rest else rest

unfoldable pub annotate_job_ages : ℕ → List QueueJob → List Seen → Aged
unfolding age_jobs forget
annotate_job_ages now jobs ledger =
    let aged = age_jobs now jobs ledger 0 in record aged { ledger = forget jobs aged.ledger }

first_seen-note_self :
    (now : ℕ) (job : List ℕ) (ledger : List Seen)
    → first_seen (note_job now job ledger) job ≡ some (seen_or now (first_seen ledger job))
unfolding note_job first_seen
first_seen-note_self now job ledger =
    (elim (first_seen ledger job)
        as (λ o.
          first_seen ledger job ≡ o
          → first_seen
              (elim o as (λ _. List Seen) [
                | none ↦ record { id = job; at = now } ∷ ledger
                | some t ↦ ledger
              ])
              job
            ≡ some (seen_or now o)) [ none ↦ λ e. rw (same_bytes_refl job) refl | some t ↦ λ e. e ])
      refl

first_seen-note_other :
    (now : ℕ) (job id : List ℕ) (ledger : List Seen)
    → same_bytes job id ≡ false
    → first_seen (note_job now job ledger) id ≡ first_seen ledger id
unfolding note_job first_seen
first_seen-note_other now job id ledger n =
    elim (first_seen ledger job)
      as (λ o.
        first_seen
          (elim o as (λ _. List Seen) [
            | none ↦ record { id = job; at = now } ∷ ledger
            | some t ↦ ledger
          ])
          id
        ≡ first_seen ledger id) [ none ↦ rw n refl | some t ↦ refl ]

-- Noting a job keeps the times that are known, and gives the job the time now if it has none.
first_seen-note_job :
    (now : ℕ) (job id : List ℕ) (ledger : List Seen)
    → first_seen (note_job now job ledger) id ≡ (
        if same_bytes job id
        then some (seen_or now (first_seen ledger id))
        else first_seen ledger id)
unfolding note_job
first_seen-note_job now job id ledger = elim (Bool-cases (same_bytes job id)) [
  | inl e ↦ rw e (
      subst (λ x. first_seen (note_job now job ledger) x ≡ some (seen_or now (first_seen ledger x)))
        (same_bytes-eq job id e) (first_seen-note_self now job ledger))
  | inr n ↦ rw n (first_seen-note_other now job id ledger n)
]

first_seen-forget :
    (jobs : List QueueJob) (ledger : List Seen) (id : List ℕ)
    → first_seen (forget jobs ledger) id ≡ (if is_live jobs id then first_seen ledger id else none)
unfolding first_seen forget
first_seen-forget jobs [] id = ground arith
first_seen-forget jobs (s ∷ ledger) id =
    let rest = first_seen-forget jobs ledger id in
    elim (Bool-cases (same_bytes s.id id)) [
      | inl e ↦
          let live = ap (is_live jobs) (same_bytes-eq s.id id e) in ground (arith, rest, live, e)
      | inr n ↦ ground (arith, rest, n)
    ]

first_seen-age_jobs :
    (now : ℕ) (jobs : List QueueJob) (ledger : List Seen) (oldest : ℕ) (id : List ℕ)
    → first_seen (age_jobs now jobs ledger oldest).ledger id ≡ (
        if is_live jobs id then some (seen_or now (first_seen ledger id)) else first_seen ledger id)
unfolding age_jobs
first_seen-age_jobs now [] ledger oldest id = refl
first_seen-age_jobs now (job ∷ jobs) ledger oldest id =
    let noted = first_seen-note_job now job.id id ledger in
    let age = age_of now job.id ledger in
    first_seen-age_jobs now jobs (note_job now job.id ledger)
      (if ltb oldest age then age else oldest) id
    ∙ rw noted (ground arith)

-- After a reading of the queue the ledger holds the jobs that are in it, and no other; a job that was in
-- it before keeps the time at which it was seen first, and a new one has the time of the reading.
first_seen-annotate_job_ages :
    (now : ℕ) (jobs : List QueueJob) (ledger : List Seen) (id : List ℕ)
    → first_seen (annotate_job_ages now jobs ledger).ledger id
      ≡ (if is_live jobs id then some (seen_or now (first_seen ledger id)) else none)
unfolding annotate_job_ages
first_seen-annotate_job_ages now jobs ledger id =
    let kept = first_seen-forget jobs (age_jobs now jobs ledger 0).ledger id in
    let aged = first_seen-age_jobs now jobs ledger 0 id in kept ∙ rw aged (ground arith)
