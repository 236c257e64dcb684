-- ===== src/Backend/Results.antt =====
-- internal/printer/qlbackend/results.go: the result files, one for a job. The directory is a list of
-- files with their times; a file holds what was marshalled into it, or something that is no result.
pub mod Newest
use raku_sika_hub.Prelude.{
  ℕ, zero, suc, leb, ltb, Bool, true, false, not, Option, none, some, List, [], ◌∷◌, if◌then◌else◌,
  length, take, drop, ◌++◌, ℤ, pos, negsuc,
}
use raku_sika_hub.Result.{Result, ok, err}
use raku_sika_hub.Scale.Text.{same_bytes}
use raku_sika_hub.Strings.Atoi.{atoi}

abbrev pub keep_results : ℕ
keep_results = 200

abbrev is_positive : Option ℤ → Bool
is_positive (some (pos (suc n))) = true
is_positive _ = false

unfoldable pub valid_job_id : List ℕ → Bool
unfolding atoi
valid_job_id id = is_positive (atoi id)

pub data Content (R : Type 0) : Type 0 where
  garbage : Content R
  stored : R → Content R

-- <job id>.json, with its time.
pub record File (R : Type 0) : Type 0 where
  pub job_id : List ℕ
  pub modified : ℕ
  pub content : Content R

pub data FileError : Type 0 where
  invalid_job_id io_failed bad_content : FileError

module _ {R : Type 0} where
  unfoldable pub remove_file : List ℕ → List (File R) → List (File R)
  unfolding same_bytes
  remove_file id [] = []
  remove_file id (f ∷ fs) =
      let rest = remove_file id fs in if same_bytes f.job_id id then rest else f ∷ rest

  unfoldable pub find_file : List ℕ → List (File R) → Option (File R)
  unfolding same_bytes
  find_file id [] = none
  find_file id (f ∷ fs) =
      let rest = find_file id fs in if same_bytes f.job_id id then some f else rest

  -- The order of sort.Slice: the newest first. It does not tell which of two files of one time comes
  -- first.
  unfoldable pub insert_file : File R → List (File R) → List (File R)
  insert_file e [] = e ∷ []
  insert_file e (f ∷ fs) =
      let after = f ∷ insert_file e fs in if leb f.modified e.modified then e ∷ f ∷ fs else after

  unfoldable pub sort_files : List (File R) → List (File R)
  unfolding insert_file
  sort_files [] = []
  sort_files (f ∷ fs) = insert_file f (sort_files fs)

  -- The files that cannot be removed: os.Remove fails on them, and its error is ignored.
  unfoldable pub stuck_files : (List ℕ → Bool) → List (File R) → List (File R)
  stuck_files removes [] = []
  stuck_files removes (f ∷ fs) =
      let rest = stuck_files removes fs in if removes f.job_id then rest else f ∷ rest

  -- `removes` tells of a job id whether its file can be removed; os.Stat works on each.
  unfoldable pub prune_results : (List ℕ → Bool) → ℕ → List (File R) → List (File R)
  unfolding sort_files stuck_files
  prune_results removes keep files =
      if leb (length files) keep
      then files
      else take keep (sort_files files) ++ stuck_files removes (drop keep (sort_files files))

  -- WriteResult at a time; `works` tells whether the directory and the temporary file can be made, written
  -- and renamed. A temporary file that fails is removed.
  unfoldable pub write_result :
      (List ℕ → Bool) → Bool → ℕ → List ℕ → R → List (File R) → Option FileError × List (File R)
  unfolding valid_job_id prune_results remove_file
  write_result removes works now id res files =
      let file : File R = record { job_id = id; modified = now; content = stored res } in
      if not (valid_job_id id)
      then (some invalid_job_id, files)
      else if not works
      then (some io_failed, files)
      else (none, prune_results removes keep_results (file ∷ remove_file id files))

  abbrev pub read_found : Option (File R) → Result FileError (Option R)
  read_found none = Result.ok none
  read_found (some f) = elim f.content [
    | garbage ↦ Result.err bad_content
    | stored r ↦ Result.ok (some r)
  ]

  -- ReadResult of files that can be read; none is a result that is not there yet.
  unfoldable pub read_result : List ℕ → List (File R) → Result FileError (Option R)
  unfolding valid_job_id find_file
  read_result id files =
      if not (valid_job_id id) then Result.err invalid_job_id else read_found (find_file id files)
