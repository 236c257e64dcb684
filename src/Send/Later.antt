-- ===== src/Send/Later.antt =====
-- internal/printer/qlbackend/send.go: what the steps before the data leave as it is, and what `write` sends.
use raku_sika_hub.Prelude.{
  ℕ, zero, suc, ◌≤◌, ◌≡◌, refl, ap, ◌∙◌, Bool, true, false, not, none, some, List, [], ◌∷◌, arith,
  if◌then◌else◌, length,
}
use raku_sika_hub.Status.{is_busy}
use raku_sika_hub.Send.World.{
  Arrival, frame, closed, timer, canceled, accepted, rejected, interrupted, Write, ask,
  reset_and_ask, chunk, World, write_all, write_end, chunks, write, write_chunks, drain,
  drain_arrivals, await_arrivals, await_reply, note_cancel,
}
use raku_sika_hub.Send.Verdict.{completions}
use raku_sika_hub.Send.Cleared.{data_sent, sent-drain, data-written}
use raku_sika_hub.Prelude.{if_cases}
use raku_sika_hub.Send.Run.{Answer, answered, silent, write_failed, ask_again, preflight}

-- What a step that reads or asks keeps: no data goes out, and no report of a label is made up.
abbrev pub Later : World → World → Type 0
Later w w' =
    (data_sent w'.sent ≡ data_sent w.sent) × (completions w'.arrivals ≤ completions w.arrivals)

drain_arrivals-Later :
    (s : List Arrival) (w : World) → completions (drain_arrivals s w).arrivals ≤ completions s
unfolding drain_arrivals completions
drain_arrivals-Later [] w = omega arith
drain_arrivals-Later (frame st ∷ s) w = ground (arith, drain_arrivals-Later s w)
drain_arrivals-Later (closed ∷ s) w = omega arith
drain_arrivals-Later (timer ∷ s) w = omega arith
drain_arrivals-Later (canceled ∷ s) w = drain_arrivals-Later s (note_cancel w)

pub drain-Later : (w : World) → Later w (drain w)
drain-Later w = (ap data_sent (sent-drain w), unfold drain in drain_arrivals-Later w.arrivals w)

await_arrivals-Later :
    (s : List Arrival) (w : World)
    → ((await_arrivals s w).1.sent ≡ w.sent)
      × (completions (await_arrivals s w).1.arrivals ≤ completions s)
unfolding await_arrivals completions
await_arrivals-Later [] w = (refl, omega arith)
await_arrivals-Later (frame st ∷ s) w = ground (arith, await_arrivals-Later s w)
await_arrivals-Later (closed ∷ s) w = (refl, omega arith)
await_arrivals-Later (timer ∷ s) w = (refl, omega arith)
await_arrivals-Later (canceled ∷ s) w = await_arrivals-Later s (note_cancel w)

await_reply-Later : (w : World) → Later w (await_reply w).1
unfolding await_reply
await_reply-Later w =
    let keeps = await_arrivals-Later w.arrivals w in (ap data_sent keeps.0, keeps.1)

write_all-Later :
    (b : Write) (w : World) → data_sent (b ∷ w.sent) ≡ data_sent w.sent → Later w (write_all b w).1
unfolding write_all
write_all-Later b w k = (data-written b (write_end w.writes).0 w.sent k, omega arith)

pub Later-trans : (a b c : World) → Later a b → Later b c → Later a c
Later-trans a b c h k = (k.0 ∙ h.0, omega arith)

ask_again-Later : (left : ℕ) (w : World) → Later w (ask_again left w).1
unfolding ask_again
ask_again-Later zero w = await_reply-Later w
ask_again-Later (suc left) w =
    let w' = (await_reply w).1 in
    let (sent, w'') = write_all ask w' in
    let read = await_reply-Later w in
    let asked = Later-trans w w' w'' read (write_all-Later ask w' (unfold data_sent in refl)) in
    let again = Later-trans w w'' (ask_again left w'').1 asked (ask_again-Later left w'') in
    elim (await_reply w).0
      as (λ reply.
        Later w
          (elim reply as (λ _. Answer × World) [
            | none ↦ (silent, w')
            | some st ↦
                if not (is_busy st)
                then (answered st, w')
                else if sent
                then ask_again left w''
                else (write_failed, w'')
          ]).1) [
            | none ↦ read
            | some st ↦
                if_cases (λ (r : Answer × World). Later w r.1) (not (is_busy st)) (λ _. read)
                  (λ _.
                    if_cases (λ (r : Answer × World). Later w r.1) sent (λ _. again) (λ _. asked))
          ]

pub preflight-Later : (retries : ℕ) (w : World) → Later w (preflight retries w).1
unfolding preflight
preflight-Later retries w =
    let (sent, w') = write_all reset_and_ask w in
    let asked = write_all-Later reset_and_ask w (unfold data_sent in refl) in
    if_cases (λ (r : Answer × World). Later w r.1) sent
      (λ _. Later-trans w w' (ask_again retries w').1 asked (ask_again-Later retries w'))
      (λ _. asked)

write_chunks-Later : (cs : List (List ℕ)) (w : World) → (write_chunks cs w).1.arrivals ≡ w.arrivals
unfolding write_chunks
write_chunks-Later [] w = refl
write_chunks-Later (c ∷ cs) w =
    let es = (write_end w.writes).1 in
    let next = record w { writes = es; sent = chunk c ∷ w.sent } in
    let rest = write_chunks-Later cs next in
    if_cases (λ (r : Bool × World). r.1.arrivals ≡ w.arrivals) w.ctx_done (λ _. refl)
      λ _.
        elim (write_end w.writes).0
          as (λ e.
            (elim e as (λ _. Bool × World) [
              | interrupted ↦ (false, record w { writes = es; ctx_done = true })
              | rejected ↦ (false, next)
              | accepted ↦ write_chunks cs next
            ]).1.arrivals
            ≡ w.arrivals) [ interrupted ↦ refl | rejected ↦ refl | accepted ↦ rest ]

pub write-arrivals : (bytes : List ℕ) (w : World) → (write bytes w).1.arrivals ≡ w.arrivals
unfolding write
write-arrivals bytes w = write_chunks-Later (chunks (length bytes) bytes) w
