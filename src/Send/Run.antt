-- ===== src/Send/Run.antt =====
-- internal/printer/qlbackend/send.go: preflight and Send.
use raku_sika_hub.Prelude.{
  ℕ, zero, suc, true, false, not, ◌&&◌, none, some, List, [], ◌∷◌, if◌then◌else◌,
}
use raku_sika_hub.Result
use raku_sika_hub.Job.Parse.{Job}
use raku_sika_hub.Job.TwoColor.{to_two_color}
use raku_sika_hub.Status.{
  Status, Problem, Reason, media_needed_error, problems, media_mismatch, two_color_roll, is_busy,
  data_not_accepted_yet, data_not_accepted,
}
use raku_sika_hub.Send.World.{
  ask, reset_and_ask, World, Result, write_all, write, drain, await_reply,
}
use raku_sika_hub.Send.Steps.{same_reason, fail_problems, fail, abort, cancel, follow}

-- What preflight returns: (status, true, nil), (…, false, nil) or (…, false, err).
pub data Answer : Type 0 where
  answered : Status → Answer
  silent write_failed : Answer

-- The loop over the attempts, with the retries that are left.
unfoldable pub ask_again : ℕ → World → Answer × World
ask_again zero w =
    let (reply, w') = await_reply w in (elim reply [ none ↦ silent | some st ↦ answered st ], w')
ask_again (suc left) w =
    let (reply, w') = await_reply w in
    let (sent, w'') = write_all ask w' in
    let next = ask_again left w'' in
    elim reply [
      | none ↦ (silent, w')
      | some st ↦
          if not (is_busy st) then (answered st, w') else if sent then next else (write_failed, w'')
    ]

unfoldable pub preflight : ℕ → World → Answer × World
preflight retries w =
    let (sent, w') = write_all reset_and_ask w in
    let next = ask_again retries w' in if sent then next else (write_failed, w')

unfoldable pub drop_reason : List Problem → Reason → List Problem
drop_reason [] r = []
drop_reason (p ∷ ps) r =
    let rest = drop_reason ps r in if same_reason p.reason r then rest else p ∷ rest

-- The problems for which the job is refused before it is sent.
unfoldable pub refusals : Job → Status → List Problem
unfolding drop_reason
refusals job reply =
    let ps =
      if job.media.known then problems reply else drop_reason (problems reply) media_needed_error in
    elim ps [
      | [] ↦ elim (media_mismatch reply job.media) [ none ↦ [] | some p ↦ p ∷ [] ]
      | p ∷ rest ↦ p ∷ rest
    ]

-- What is sent: the data, in two colours if the roll has them and the data can be rewritten.
unfoldable pub data_for : Job → Status → List ℕ → List ℕ
data_for job reply bytes =
    if two_color_roll reply && not job.two_color
    then elim (to_two_color bytes) [ Result.ok two ↦ two | Result.err _ ↦ bytes ]
    else bytes

-- Step 2 and what follows it.
unfoldable pub transmit : Job → List ℕ → Result → World → Result × World
transmit job bytes res w =
    let (sent, w') = write bytes w in
    if sent
    then follow w'.arrivals job false res w'
    else if w'.ctx_done
    then cancel res w'
    else abort (fail data_not_accepted res w')

abbrev pub new_result : Job → Result
new_result job = record {
  outcome = none;
  message = [];
  reasons = [];
  pages = job.pages;
  completed = 0;
  muted = false;
}

-- What follows an answer whose problems are the first argument.
unfoldable pub unless_refused : List Problem → Job → List ℕ → World → Result × World
unless_refused [] job bytes w = transmit job bytes (new_result job) w
unless_refused (p ∷ ps) job bytes w = fail_problems (p ∷ ps) (new_result job) w

unfoldable pub act_on : Answer → Job → List ℕ → World → Result × World
act_on write_failed job bytes w = fail data_not_accepted_yet (new_result job) w
act_on silent job bytes w = transmit job bytes (record (new_result job) { muted = true }) w
act_on (answered reply) job bytes w =
    unless_refused (refusals job reply) job (data_for job reply bytes) w

unfoldable pub send : ℕ → Job → List ℕ → World → Result × World
send retries job bytes w =
    let (answer, w') = preflight retries (drain w) in act_on answer job bytes w'
