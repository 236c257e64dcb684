-- ===== src/Job/Parse/Ends.antt =====
-- internal/printer/qlbackend/job.go: ParseJob comes to an end on every stream.
use raku_sika_hub.Prelude.{
  ℕ, zero, suc, ◌+◌, ◌-◌, ◌*◌, ◌≤◌, ◌≡◌, refl, ap, ◌≢◌, true, not, ◌||◌, List, [], ◌∷◌, arith, ◌==◌,
  if_cases, length, length-append,
}
use raku_sika_hub.Result.{Result, ok, err, ◌>>=◌}
use raku_sika_hub.Job.Parse.{
  Job, Fault, out_of_fuel, take_bytes, next_byte, escape_i, escape, escape_size, raster_line,
  compressed_line, compression_mode, command, walk, parse_job, empty_job,
}
use raku_sika_hub.Job.Parse.Commands.{render}
use raku_sika_hub.Job.Parse.Sound.{length-render_pos}
use raku_sika_hub.Job.Parse.Complete.{command-Reads}

-- The result is one of the source's: a value, or one of its errors.
abbrev IsReal {ℓ} : {A : Type ℓ} → Result Fault A → Type ℓ
IsReal r = r ≢ err out_of_fuel

>>=-IsReal {ℓ κ} :
    {A : Type ℓ} {B : Type κ} (first : Result Fault A) (rest : A → Result Fault B)
    → IsReal first
    → ((a : A) → first ≡ ok a → IsReal (rest a))
    → IsReal (first >>= rest)
>>=-IsReal (err e) rest f r h = f (cc)
>>=-IsReal (ok a) rest f r h = r a refl h

take_bytes-IsReal : (i n : ℕ) (bytes : List ℕ) → IsReal (take_bytes i n bytes)
unfolding take_bytes
take_bytes-IsReal i n bytes h = ground arith

next_byte-IsReal : (i : ℕ) (bytes : List ℕ) → IsReal (next_byte i bytes)
unfolding next_byte
next_byte-IsReal i [] h = ground arith
next_byte-IsReal i (b ∷ bytes) h = ground arith

raster_line-IsReal : (i : ℕ) (bytes : List ℕ) (job : Job) → IsReal (raster_line i bytes job)
unfolding raster_line
raster_line-IsReal i bytes job = >>=-IsReal (next_byte i bytes) _ (next_byte-IsReal i bytes) λ a _.
    >>=-IsReal (next_byte i a.1) _ (next_byte-IsReal i a.1) λ b _.
      >>=-IsReal (take_bytes i b.0 b.1) _ (take_bytes-IsReal i b.0 b.1) (λ c _ h. ground arith)

compressed_line-IsReal : (i : ℕ) (bytes : List ℕ) (job : Job) → IsReal (compressed_line i bytes job)
unfolding compressed_line
compressed_line-IsReal i bytes job =
    >>=-IsReal (next_byte i bytes) _ (next_byte-IsReal i bytes) λ a _.
      >>=-IsReal (next_byte i a.1) _ (next_byte-IsReal i a.1) λ b _.
        >>=-IsReal (take_bytes i (a.0 + b.0 * 256) b.1) _
          (take_bytes-IsReal i (a.0 + b.0 * 256) b.1) (λ c _ h. ground arith)

escape_i-IsReal : (i : ℕ) (bytes : List ℕ) (job : Job) → IsReal (escape_i i bytes job)
unfolding escape_i
escape_i-IsReal i bytes job = >>=-IsReal (next_byte i bytes) _ (next_byte-IsReal i bytes) λ k _.
    if_cases IsReal (escape_size k.0 == 0) (λ _ h. ground arith)
      λ _.
        >>=-IsReal (take_bytes i (escape_size k.0 - 3) k.1) _
          (take_bytes-IsReal i (escape_size k.0 - 3) k.1) (λ c _ h. ground arith)

escape-IsReal : (i : ℕ) (bytes : List ℕ) (job : Job) → IsReal (escape i bytes job)
unfolding escape
escape-IsReal i bytes job = >>=-IsReal (next_byte i bytes) _ (next_byte-IsReal i bytes) λ c _.
    if_cases IsReal (c.0 == b'@') (λ _ h. ground arith)
      λ _.
        if_cases IsReal (not (c.0 == b'i')) (λ _ h. ground arith) (λ _. escape_i-IsReal i c.1 job)

compression_mode-IsReal :
    (i : ℕ) (bytes : List ℕ) (job : Job) → IsReal (compression_mode i bytes job)
unfolding compression_mode
compression_mode-IsReal i bytes job =
    >>=-IsReal (next_byte i bytes) _ (next_byte-IsReal i bytes) (λ c _ h. ground arith)

command-IsReal : (i c : ℕ) (bytes : List ℕ) (job : Job) → IsReal (command i c bytes job)
unfolding command
command-IsReal i c bytes job =
    if_cases IsReal (c == 0x00) (λ _ h. ground arith)
      λ _.
        if_cases IsReal (c == 0x0C || c == 0x1A) (λ _ h. ground arith)
          λ _.
            if_cases IsReal (c == b'M') (λ _. compression_mode-IsReal i bytes job)
              λ _.
                if_cases IsReal (c == b'Z') (λ _ h. ground arith)
                  λ _.
                    if_cases IsReal (c == b'g') (λ _. raster_line-IsReal i bytes job)
                      λ _.
                        if_cases IsReal (c == b'w')
                          (λ _. raster_line-IsReal i bytes (record job { two_color = true }))
                          λ _.
                            if_cases IsReal (c == b'G') (λ _. compressed_line-IsReal i bytes job)
                              λ _.
                                if_cases IsReal (c == 0x1B) (λ _. escape-IsReal i bytes job)
                                  (λ _ h. ground arith)

-- A command takes a byte at least.
command-length :
    (i c : ℕ) (bytes : List ℕ) (job job' : Job) (rest : List ℕ)
    → command i c bytes job ≡ ok (job', rest)
    → length rest ≤ length bytes
command-length i c bytes job job' rest h =
    let (d, b, j) = command-Reads i c bytes job h in
    omega (arith, ap length b, length-append (render d) rest, length-render_pos d)

walk-IsReal :
    (fuel i : ℕ) (bytes : List ℕ) (job : Job) → length bytes ≤ fuel → IsReal (walk fuel i bytes job)
unfolding walk
walk-IsReal zero i [] job e h = ground arith
walk-IsReal zero i (c ∷ bytes) job e h = absurd (omega (arith, e))
walk-IsReal (suc fuel) i [] job e h = ground arith
walk-IsReal (suc fuel) i (c ∷ bytes) job e h =
    >>=-IsReal (command i c bytes job) _ (command-IsReal i c bytes job)
      (λ next d.
        walk-IsReal fuel _ next.1 next.0
          (omega (arith, e, command-length i c bytes job next.0 next.1 d)))
      h

-- ParseJob ends on every stream, with a job or with one of its errors.
pub parse_job-ends : (bytes : List ℕ) → parse_job bytes ≢ err out_of_fuel
unfolding parse_job
parse_job-ends bytes =
    >>=-IsReal (walk (length bytes) 0 bytes empty_job) _
      (walk-IsReal (length bytes) 0 bytes empty_job (omega arith)) (λ seen _ h. ground arith)
