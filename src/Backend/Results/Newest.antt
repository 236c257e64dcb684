-- ===== src/Backend/Results/Newest.antt =====
-- internal/printer/qlbackend/results.go: a result that was written can be read, and the newest are kept.
use raku_sika_hub.Prelude.{
  ℕ, zero, suc, ◌≤◌, ◌<◌, ◌≡◌, refl, ap, ◌∙◌, leb, Bool, false, not, Option, none, some, List, [],
  ◌∷◌, ◌++◌, ◌+◌, sym, length, take, drop, All, arith, if_cases, length-take, length-append,
}
use mathlib.Core.Path.{subst}
use raku_sika_hub.Result.{Result}
use raku_sika_hub.Scale.Text.{same_bytes}
use raku_sika_hub.Strings.Compare.{same_bytes_refl}
use raku_sika_hub.Backend.Results.{
  keep_results, valid_job_id, File, stored, FileError, remove_file, find_file, insert_file,
  sort_files, stuck_files, prune_results, write_result, read_result,
}

module _ {R : Type 0} where
  module _ (P : File R → Type 0) where
    All-remove_file :
        (id : List ℕ) (files : List (File R)) → All P files → All P (remove_file id files)
    unfolding remove_file
    All-remove_file id [] a = tt
    All-remove_file id (f ∷ fs) a =
        if_cases (All P) (same_bytes f.job_id id) (λ _. All-remove_file id fs a.1)
          (λ _. (a.0, All-remove_file id fs a.1))

    All-insert_file :
        (e : File R) (files : List (File R)) → P e → All P files → All P (insert_file e files)
    unfolding insert_file
    All-insert_file e [] p a = (p, tt)
    All-insert_file e (f ∷ fs) p a =
        if_cases (All P) (leb f.modified e.modified) (λ _. (p, a))
          (λ _. (a.0, All-insert_file e fs p a.1))

    All-sort_files : (files : List (File R)) → All P files → All P (sort_files files)
    unfolding sort_files
    All-sort_files [] a = tt
    All-sort_files (f ∷ fs) a = All-insert_file f (sort_files fs) a.0 (All-sort_files fs a.1)

    All-take : (n : ℕ) (files : List (File R)) → All P files → All P (take n files)
    All-take zero files a = tt
    All-take (suc n) [] a = tt
    All-take (suc n) (f ∷ fs) a = (a.0, All-take n fs a.1)

  abbrev pub IsBefore : ℕ → File R → Type 0
  IsBefore now f = f.modified < now

  -- A file that is newer than all others comes first.
  insert_file-newest :
      (e : File R) (files : List (File R))
      → All (IsBefore e.modified) files
      → insert_file e files ≡ e ∷ files
  unfolding insert_file
  insert_file-newest e [] a = refl
  insert_file-newest e (f ∷ fs) a = ground (arith, a.0)

  module _ (removes : List ℕ → Bool) where
    -- How many of the files cannot be removed.
    abbrev pub stuck : List (File R) → ℕ
    stuck files = length (stuck_files removes files)

    stuck-insert_file :
        (e : File R) (files : List (File R)) → stuck (insert_file e files) ≡ stuck (e ∷ files)
    unfolding insert_file stuck_files
    stuck-insert_file e [] = refl
    stuck-insert_file e (f ∷ fs) = ground (arith, stuck-insert_file e fs)

    stuck-sort_files : (files : List (File R)) → stuck (sort_files files) ≡ stuck files
    unfolding sort_files stuck_files
    stuck-sort_files [] = refl
    stuck-sort_files (f ∷ fs) =
        stuck-insert_file f (sort_files fs)
        ∙ (unfold stuck_files in ground (arith, stuck-sort_files fs))

    stuck-drop : (n : ℕ) (files : List (File R)) → stuck (drop n files) ≤ stuck files
    unfolding stuck_files
    stuck-drop zero files = omega arith
    stuck-drop (suc n) [] = omega arith
    stuck-drop (suc n) (f ∷ fs) = ground (arith, stuck-drop n fs)

    stuck-remove_file :
        (id : List ℕ) (files : List (File R)) → stuck (remove_file id files) ≤ stuck files
    unfolding stuck_files remove_file
    stuck-remove_file id [] = omega arith
    stuck-remove_file id (f ∷ fs) = ground (arith, stuck-remove_file id fs)

    -- What is left begins with the file, and is no more than the number kept and what is stuck.
    prune_results-newest :
        (e : File R) (files : List (File R)) (n : ℕ)
        → All (IsBefore e.modified) files
        → (rest : List (File R)) × (prune_results removes (suc n) (e ∷ files) ≡ e ∷ rest)
          × (length (prune_results removes (suc n) (e ∷ files)) ≤ suc n + stuck files)
    unfolding prune_results sort_files
    prune_results-newest e files n a =
        if_cases (λ r. (rest : List (File R)) × (r ≡ e ∷ rest) × (length r ≤ suc n + stuck files))
          (leb (suc (length files)) (suc n)) (λ few. (files, refl, ground arith))
          (λ _.
            let first =
              insert_file-newest e (sort_files files)
                (All-sort_files (IsBefore e.modified) files a) in
            let left =
              λ (fs : List (File R)). take (suc n) fs ++ stuck_files removes (drop (suc n) fs) in
            let old = drop n (sort_files files) in
            let bound : length (left (e ∷ sort_files files)) ≤ suc n + stuck files = omega (
              arith,
              length-append (take n (sort_files files)) (stuck_files removes old),
              length-take n (sort_files files),
              stuck-drop n (sort_files files),
              stuck-sort_files files,
            ) in
            (
              take n (sort_files files) ++ stuck_files removes old,
              ap left first,
              subst (λ fs. length (left fs) ≤ suc n + stuck files) (sym first) bound,
            ))

  read_result_first :
      (id : List ℕ) (now : ℕ) (res : R) (rest : List (File R))
      → not (valid_job_id id) ≡ false
      → read_result id (record { job_id = id; modified = now; content = stored res } ∷ rest)
        ≡ Result.ok (some res)
  unfolding read_result find_file
  read_result_first id now res rest valid = ground (arith, valid, same_bytes_refl id)

  -- Right after a result is written without an error, later than all that are there, ReadResult returns it
  -- for that job, and at most 200 files are left besides those that were there and cannot be removed.
  pub read_result-write_result :
      (removes : List ℕ → Bool) (works : Bool) (now : ℕ) (id : List ℕ) (res : R)
      (files : List (File R))
      → All (IsBefore now) files
      → (write_result removes works now id res files).0 ≡ none
      → (read_result id (write_result removes works now id res files).1 ≡ Result.ok (some res))
        × (length (write_result removes works now id res files).1
            ≤ keep_results + stuck removes files)
  unfolding write_result read_result find_file
  read_result-write_result removes works now id res files a =
      let file : File R = record { job_id = id; modified = now; content = stored res } in
      let others = remove_file id files in
      let (rest, kept, few) =
        prune_results-newest removes file others 199 (All-remove_file (IsBefore now) id files a) in
      let Good : Option FileError × List (File R) → Type 0 = λ w.
        w.0 ≡ none
        → (read_result id w.1 ≡ Result.ok (some res))
          × (length w.1 ≤ keep_results + stuck removes files) in
      if_cases Good (not (valid_job_id id)) (λ _ h. absurd (cc (h)))
        (λ valid.
          if_cases Good (not works) (λ _ h. absurd (cc (h)))
            (λ _ _. (
              ap (read_result id) kept ∙ read_result_first id now res rest valid,
              omega (arith, few, stuck-remove_file removes id files),
            )))
