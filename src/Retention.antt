-- ===== src/Retention.antt =====
-- src/recording/retention.cpp and include/rtmp_server/recording/retention.hpp: plan_retention, which
-- decides and touches no file. A time is a number of seconds since some start; `cutoff = now -
-- max_age` is written without the subtraction. The order that std::sort gives to files of the same
-- age is unspecified; here they stay as they came.
pub mod Limits
pub mod Oldest
pub mod Plan
pub mod Tests
use rtmp_core.Base.{
  ℕ, ◌+◌, ◌-◌, ◌%◌, ◌^◌, Bool, true, false, not, ltb, leb, ◌==◌, if◌then◌else◌, List, [], ◌∷◌, ◌++◌,
  length,
}

pub record RetentionPolicy : Type 0 where
  pub max_age : ℕ
  pub max_files : ℕ
  pub max_total_bytes : ℕ

pub record RecordingFile : Type 0 where
  pub path : List ℕ
  pub size_bytes : ℕ
  pub modified : ℕ

pub record RetentionPlan : Type 0 where
  pub to_delete : List (List ℕ)
  pub bytes_reclaimed : ℕ
  pub files_kept : ℕ
  pub bytes_kept : ℕ

-- Oldest first.
unfoldable pub insert_file : RecordingFile → List RecordingFile → List RecordingFile
insert_file f [] = f ∷ []
insert_file f (g ∷ gs) =
    let later = insert_file f gs in if leb f.modified g.modified then f ∷ g ∷ gs else g ∷ later

unfoldable pub sort_files : List RecordingFile → List RecordingFile
sort_files [] = []
sort_files (f ∷ fs) = insert_file f (sort_files fs)

-- `files[i]` with `deleted[i]`.
abbrev pub Marks : Type 0
Marks = List (RecordingFile × Bool)

unfoldable pub unmarked : List RecordingFile → Marks
unmarked [] = []
unmarked (f ∷ fs) = (f, false) ∷ unmarked fs

unfoldable pub surviving : Marks → ℕ
surviving [] = 0
surviving ((f, deleted) ∷ ms) = if deleted then surviving ms else surviving ms + 1

unfoldable pub total_bytes_of : Marks → ℕ
total_bytes_of [] = 0
total_bytes_of ((f, deleted) ∷ ms) =
    if deleted then total_bytes_of ms else (f.size_bytes + total_bytes_of ms) % 2 ^ 64

-- `drop(i)`: the mark, and the file if it was not marked yet.
abbrev pub dropped : RecordingFile → Bool → List RecordingFile → List RecordingFile
dropped f deleted later = if deleted then later else f ∷ later

-- Each pass gives the marks that it leaves and the files that it drops, in order.
unfoldable pub drop_old : ℕ → ℕ → Marks → Marks × List RecordingFile
drop_old now max_age [] = ([], [])
drop_old now max_age ((f, deleted) ∷ ms) =
    let (later, files) = drop_old now max_age ms in
    if ltb (f.modified + max_age) now
    then ((f, true) ∷ later, dropped f deleted files)
    else ((f, deleted) ∷ later, files)

-- `count` is surviving() of all marks when the loop comes to these.
unfoldable pub drop_many : ℕ → ℕ → Marks → Marks × List RecordingFile
drop_many max_files count [] = ([], [])
drop_many max_files count ((f, deleted) ∷ ms) =
    let (later, files) = drop_many max_files (if deleted then count else count - 1) ms in
    if ltb max_files count
    then ((f, true) ∷ later, dropped f deleted files)
    else ((f, deleted) ∷ ms, [])

unfoldable pub drop_large : ℕ → ℕ → Marks → Marks × List RecordingFile
drop_large max_total_bytes total [] = ([], [])
drop_large max_total_bytes total ((f, deleted) ∷ ms) =
    let (later, files) =
      drop_large max_total_bytes
        (if deleted then total else (total + 2 ^ 64 - f.size_bytes) % 2 ^ 64) ms in
    if ltb max_total_bytes total
    then ((f, true) ∷ later, dropped f deleted files)
    else ((f, deleted) ∷ ms, [])

-- A limit of 0 is none.
abbrev pub when : ℕ → Marks × List RecordingFile → Marks → Marks × List RecordingFile
when limit pass ms = if limit == 0 then (ms, []) else pass

abbrev pub paths : List RecordingFile → List (List ℕ)
paths [] = []
paths (f ∷ fs) = f.path ∷ paths fs

unfoldable pub bytes_of_files : List RecordingFile → ℕ
bytes_of_files [] = 0
bytes_of_files (f ∷ fs) = (f.size_bytes + bytes_of_files fs) % 2 ^ 64

-- The three passes: age, count, size.
unfoldable pub run_passes : RetentionPolicy → ℕ → Marks → Marks × List RecordingFile
run_passes policy now ms =
    let (aged, old) = when policy.max_age (drop_old now policy.max_age ms) ms in
    let (counted, many) =
      when policy.max_files (drop_many policy.max_files (surviving aged) aged) aged in
    let (sized, large) =
      when policy.max_total_bytes
        (drop_large policy.max_total_bytes (total_bytes_of counted) counted) counted in
    (sized, old ++ (many ++ large))

unfoldable pub plan_retention : List RecordingFile → RetentionPolicy → ℕ → RetentionPlan
plan_retention files policy now =
    let (ms, gone) = run_passes policy now (unmarked (sort_files files)) in
    record {
      to_delete = paths gone;
      bytes_reclaimed = bytes_of_files gone;
      files_kept = surviving ms;
      bytes_kept = total_bytes_of ms;
    }
