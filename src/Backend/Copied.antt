-- ===== src/Backend/Copied.antt =====
-- internal/printer/qlbackend/main.go: the copies, and what a printed result says.
use raku_sika_hub.Prelude.{
  ℕ, zero, suc, ◌+◌, ◌-◌, ◌*◌, ◌≤◌, ◌<◌, ◌≡◌, refl, sym, ap, ◌∙◌, Bool, Option, none, some, List,
  ◌++◌, arith, ◌≢◌, ltb, if_cases, length,
}
use raku_sika_hub.Result
use raku_sika_hub.Job.Parse.{Job, empty_job, parse_job, verdict}
use raku_sika_hub.Job.Parse.Commands.{Command, render_all, notes}
use raku_sika_hub.Job.Parse.Sound.{parse_job-render_all, render_all-append, notes-append}
use raku_sika_hub.Job.Parse.Complete.{parse_job-eq-ok}
use raku_sika_hub.Job.Parse.Copies.{notes_again}
use raku_sika_hub.Status.{Message, data_unreadable, not_a_raster_job, device_not_opened}
use raku_sika_hub.Send.World.{World, printed, Result}
use raku_sika_hub.Send.Steps.{fail, fail_problems}
use raku_sika_hub.Send.Run.{new_result}
use raku_sika_hub.Send.Verdict.{completions}
use raku_sika_hub.Send.Whole.{send-printed}
use raku_sika_hub.Backend.{
  append_copies, with_copies, run_parsed, run_data, busy_retries, max_job_bytes,
}

pages_none : (p q : ℕ) → p ≡ p + q * 0
pages_none p q = omega arith

pages_more : (p q n : ℕ) → p + q + q * n ≡ p + q * suc n
pages_more p q n = grind arith

append_copies-render_all :
    (n : ℕ) (cs ds : List Command) (p : ℕ)
    → notes empty_job ds ≡ record (notes empty_job cs) { pages = p }
    → (es : List Command) × ((append_copies n (render_all ds) (render_all cs) ≡ render_all es)
        × (notes empty_job es
            ≡ record (notes empty_job cs) { pages = p + (notes empty_job cs).pages * n }))
unfolding append_copies
append_copies-render_all zero cs ds p h = (
  ds,
  (
    refl,
    h
        ∙ ap (λ x. record (notes empty_job cs) { pages = x })
            (pages_none p (notes empty_job cs).pages),
  ),
)
append_copies-render_all (suc n) cs ds p h =
    let once = (notes empty_job cs).pages in
    let more : notes empty_job (ds ++ cs) ≡ record (notes empty_job cs) { pages = p + once } =
      notes-append empty_job ds cs ∙ ap (λ j. notes j cs) h ∙ notes_again cs p in
    let (es, known) = append_copies-render_all n cs (ds ++ cs) (p + once) more in
    (
      es,
      (
        ap (λ b. append_copies n b (render_all cs)) (sym (render_all-append ds cs)) ∙ known.0,
        known.1 ∙ ap (λ x. record (notes empty_job cs) { pages = x }) (pages_more p once n),
      ),
    )

pages_all : (q n : ℕ) → q + q * n ≡ q * suc n
pages_all q n = grind arith

times_pos : (p n : ℕ) → 0 < p → 0 < p * suc n
times_pos p n h = grind arith

verdict-some_page : (job : Job) → 0 < job.pages → verdict job ≡ Result.ok job
verdict-some_page job h = ground arith

-- Data that is read as a job is, with n copies of it appended, read as the same job with n times as
-- many pages more: the number that the backend waits for is the number that the stream prints.
pub parse_job-append_copies :
    (n : ℕ) (bytes : List ℕ) (job : Job)
    → parse_job bytes ≡ Result.ok job
    → parse_job (append_copies n bytes bytes) ≡ Result.ok (with_copies (suc n) job)
parse_job-append_copies n bytes job h =
    let (cs, b, j, some_page) = parse_job-eq-ok bytes h in
    let once = (notes empty_job cs).pages in
    let (es, known) = append_copies-render_all n cs cs once refl in
    let all : notes empty_job es ≡ with_copies (suc n) job =
      known.1
      ∙ ap (λ x. record (notes empty_job cs) { pages = x }) (pages_all once n)
      ∙ ap (with_copies (suc n)) (sym j) in
    let many : 0 < (with_copies (suc n) job).pages = times_pos job.pages n some_page in
    ap (λ x. parse_job (append_copies n x x)) b
    ∙ ap parse_job known.0
    ∙ parse_job-render_all es
    ∙ ap verdict all
    ∙ verdict-some_page (with_copies (suc n) job) many

-- What a printed result is the result of.
abbrev pub IsPrintedJob : ℕ → Option (List ℕ) → World → Type 0
IsPrintedJob copies input w =
    (bytes : List ℕ) × (job : Job) × (input ≡ some bytes)
    × (parse_job bytes ≡ Result.ok job)
    × (job.pages * copies ≤ completions w.arrivals)

outcome-fail-printed :
    (m : Message) (job : Job) (w : World) → (fail m (new_result job) w).0.outcome ≢ some printed
unfolding fail fail_problems
outcome-fail-printed m job w h = absurd (ground arith)

-- If the backend ends a job as printed, its data was read as a job, and the printer reported
-- at least as many labels as its pages, times the copies that were asked for.
pub run_data-printed :
    (copies : ℕ) (input : Option (List ℕ)) (opened : Bool) (w : World)
    → (run_data copies input opened w).0.outcome ≡ some printed
    → IsPrintedJob copies input w
unfolding run_data run_parsed
run_data-printed copies none opened w =
    λ h. absurd (outcome-fail-printed data_unreadable empty_job w h)
run_data-printed copies (some bytes) opened w =
    let P =
      λ (r : Result × World). r.0.outcome ≡ some printed → IsPrintedJob copies (some bytes) w in
    if_cases P (ltb max_job_bytes (length bytes))
      (λ _ h. absurd (outcome-fail-printed data_unreadable empty_job w h))
      λ _.
        (elim (parse_job bytes)
            as (λ parsed.
              parse_job bytes ≡ parsed
              → P (elim parsed [
                | Result.err _ ↦ fail not_a_raster_job (new_result empty_job) w
                | Result.ok job ↦ run_parsed copies job bytes opened w
              ])) [
                | Result.err _ ↦ λ _ h. absurd (outcome-fail-printed not_a_raster_job empty_job w h)
                | Result.ok job ↦ λ e.
                    if_cases P opened
                      (λ _ h. (
                        bytes,
                        job,
                        refl,
                        e,
                        send-printed busy_retries (with_copies copies job)
                            (append_copies (copies - 1) bytes bytes) w h,
                      ))
                      (λ _ h.
                        absurd
                          (outcome-fail-printed device_not_opened (with_copies copies job) w h))
              ])
          refl
