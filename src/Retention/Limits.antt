-- ===== src/Retention/Limits.antt =====
-- The limits and the accounting of a plan (src/recording/retention.cpp).
use rtmp_core.Base.{
  ℕ, ◌+◌, ◌-◌, ◌%◌, ◌^◌, ◌≤◌, ◌<◌, ◌≡◌, ◌≢◌, refl, sym, inl, inr, true, false, ◌==◌, if◌then◌else◌,
  List, [], ◌∷◌, ◌++◌, length, length-append, arith, Bool-cases,
}
use mathlib.Core.Path.{subst}
use rtmp_core.Retention.{
  RetentionPolicy, RecordingFile, RetentionPlan, insert_file, sort_files, Marks, unmarked,
  surviving, total_bytes_of, drop_old, drop_many, drop_large, when, paths, bytes_of_files,
  run_passes, plan_retention,
}

-- The bytes of the files, all of them, counted without a width.
unfoldable pub size_all : List RecordingFile → ℕ
size_all [] = 0
size_all (f ∷ fs) = f.size_bytes + size_all fs

unfoldable pub size_kept : Marks → ℕ
size_kept [] = 0
size_kept ((f, deleted) ∷ ms) = if deleted then size_kept ms else f.size_bytes + size_kept ms

-- What is kept after a pass and what it dropped make up what was kept before.
pub record Accounts (before : Marks) (after : Marks × List RecordingFile) : Type 0 where
  pub files : surviving after.0 + length after.1 ≡ surviving before
  pub bytes : size_kept after.0 + size_all after.1 ≡ size_kept before

drop_old-Accounts : (now max_age : ℕ) (ms : Marks) → Accounts ms (drop_old now max_age ms)
unfolding drop_old surviving size_kept size_all
drop_old-Accounts now age [] = record { files = omega arith; bytes = omega arith }
drop_old-Accounts now age ((f, d) ∷ ms) =
    let ih = drop_old-Accounts now age ms in
    record { files = ground (arith, ih.files); bytes = ground (arith, ih.bytes) }

drop_many-Accounts : (n count : ℕ) (ms : Marks) → Accounts ms (drop_many n count ms)
unfolding drop_many surviving size_kept size_all
drop_many-Accounts n count [] = record { files = omega arith; bytes = omega arith }
drop_many-Accounts n count ((f, d) ∷ ms) =
    let ih = drop_many-Accounts n (if d then count else count - 1) ms in
    record { files = ground (arith, ih.files); bytes = ground (arith, ih.bytes) }

drop_large-Accounts : (n total : ℕ) (ms : Marks) → Accounts ms (drop_large n total ms)
unfolding drop_large surviving size_kept size_all
drop_large-Accounts n total [] = record { files = omega arith; bytes = omega arith }
drop_large-Accounts n total ((f, d) ∷ ms) =
    let ih =
      drop_large-Accounts n (if d then total else (total + 2 ^ 64 - f.size_bytes) % 2 ^ 64) ms in
    record { files = ground (arith, ih.files); bytes = ground (arith, ih.bytes) }

drop_many-within :
    (n count : ℕ) (ms : Marks) → count ≡ surviving ms → surviving (drop_many n count ms).0 ≤ n
unfolding drop_many surviving
drop_many-within n count [] e = omega arith
drop_many-within n count ((f, true) ∷ ms) e = ground (arith, drop_many-within n count ms e)
drop_many-within n count ((f, false) ∷ ms) e =
    ground (arith, drop_many-within n (count - 1) ms (omega (arith, e)))

drop_large-within :
    (n total : ℕ) (ms : Marks)
    → total ≡ size_kept ms
    → total < 2 ^ 64
    → size_kept (drop_large n total ms).0 ≤ n
unfolding drop_large size_kept
drop_large-within n total [] e small = omega arith
drop_large-within n total ((f, true) ∷ ms) e small =
    ground (arith, drop_large-within n total ms e small)
drop_large-within n total ((f, false) ∷ ms) e small =
    let less : (total + 2 ^ 64 - f.size_bytes) % 2 ^ 64 ≡ size_kept ms = omega (arith, e) in
    ground
      (arith, drop_large-within n ((total + 2 ^ 64 - f.size_bytes) % 2 ^ 64) ms less (omega arith))

when-Accounts :
    (limit : ℕ) (pass : Marks × List RecordingFile) (ms : Marks)
    → Accounts ms pass
    → Accounts ms (when limit pass ms)
unfolding size_all
when-Accounts limit pass ms a = elim (Bool-cases (limit == 0)) [
  | inl off ↦ rw off (record { files = omega arith; bytes = omega arith })
  | inr on ↦ rw on a
]

when-on :
    (limit : ℕ) (pass : Marks × List RecordingFile) (ms : Marks)
    → limit ≢ 0
    → when limit pass ms ≡ pass
when-on limit pass ms on = let e : (limit == 0) ≡ false = ground arith in rw e refl

pub size_all-append : (xs ys : List RecordingFile) → size_all (xs ++ ys) ≡ size_all xs + size_all ys
unfolding size_all
size_all-append [] ys = omega arith
size_all-append (x ∷ xs) ys = omega (arith, size_all-append xs ys)

-- One pass after another.
then-Accounts :
    (ms : Marks) (first second : Marks × List RecordingFile)
    → Accounts ms first
    → Accounts first.0 second
    → Accounts ms (second.0, first.1 ++ second.1)
then-Accounts ms first second a b = record {
  files = omega (arith, a.files, b.files, length-append first.1 second.1);
  bytes = omega (arith, a.bytes, b.bytes, size_all-append first.1 second.1);
}

pub total_bytes_of-size_kept : (ms : Marks) → total_bytes_of ms ≡ size_kept ms % 2 ^ 64
unfolding total_bytes_of size_kept
total_bytes_of-size_kept [] = omega arith
total_bytes_of-size_kept ((f, d) ∷ ms) = ground (arith, total_bytes_of-size_kept ms)

pub bytes_of_files-size_all : (fs : List RecordingFile) → bytes_of_files fs ≡ size_all fs % 2 ^ 64
unfolding bytes_of_files size_all
bytes_of_files-size_all [] = omega arith
bytes_of_files-size_all (f ∷ fs) = omega (arith, bytes_of_files-size_all fs)

-- The marks after the passes: what is dropped is accounted for, and the limits hold.
record Passed (policy : RetentionPolicy) (ms : Marks) (after : Marks × List RecordingFile)
    : Type 0 where
  pub accounts : Accounts ms after
  pub few : policy.max_files ≢ 0 → surviving after.0 ≤ policy.max_files
  pub small : policy.max_total_bytes ≢ 0 → size_kept after.0 ≤ policy.max_total_bytes

run_passes-Passed :
    (policy : RetentionPolicy) (now : ℕ) (ms : Marks)
    → size_kept ms < 2 ^ 64
    → Passed policy ms (run_passes policy now ms)
unfolding run_passes
run_passes-Passed policy now ms fits = record {
  accounts =
      then-Accounts ms aged sized_all by_age (then-Accounts aged.0 counted sized by_count by_size);
  few = λ on. omega (arith, counted-few on, by_size.files);
  small = sized-small;
}
  where
    aged : Marks × List RecordingFile
    aged = when policy.max_age (drop_old now policy.max_age ms) ms

    counted : Marks × List RecordingFile
    counted = when policy.max_files (drop_many policy.max_files (surviving aged.0) aged.0) aged.0

    sized : Marks × List RecordingFile
    sized =
        when policy.max_total_bytes
          (drop_large policy.max_total_bytes (total_bytes_of counted.0) counted.0) counted.0

    sized_all : Marks × List RecordingFile
    sized_all = (sized.0, counted.1 ++ sized.1)

    by_age : Accounts ms aged
    by_age = when-Accounts policy.max_age _ ms (drop_old-Accounts now policy.max_age ms)

    by_count : Accounts aged.0 counted
    by_count = when-Accounts policy.max_files _ aged.0 (drop_many-Accounts _ _ aged.0)

    by_size : Accounts counted.0 sized
    by_size = when-Accounts policy.max_total_bytes _ counted.0 (drop_large-Accounts _ _ counted.0)

    counted-few : policy.max_files ≢ 0 → surviving counted.0 ≤ policy.max_files
    counted-few on =
        subst (λ (r : Marks × List RecordingFile). surviving r.0 ≤ policy.max_files)
          (sym (when-on policy.max_files _ aged.0 on))
          (drop_many-within policy.max_files (surviving aged.0) aged.0 refl)

    sized-small : policy.max_total_bytes ≢ 0 → size_kept sized.0 ≤ policy.max_total_bytes
    sized-small on =
        let narrow : size_kept counted.0 < 2 ^ 64 =
          omega (arith, fits, by_age.bytes, by_count.bytes) in
        let same : total_bytes_of counted.0 ≡ size_kept counted.0 =
          omega (arith, total_bytes_of-size_kept counted.0) in
        subst (λ (r : Marks × List RecordingFile). size_kept r.0 ≤ policy.max_total_bytes)
          (sym (when-on policy.max_total_bytes _ counted.0 on))
          (drop_large-within policy.max_total_bytes (total_bytes_of counted.0) counted.0 same
            (omega arith))

length-insert_file :
    (f : RecordingFile) (fs : List RecordingFile) → length (insert_file f fs) ≡ length fs + 1
unfolding insert_file
length-insert_file f [] = omega arith
length-insert_file f (g ∷ gs) = ground (arith, length-insert_file f gs)

size_all-insert_file :
    (f : RecordingFile) (fs : List RecordingFile)
    → size_all (insert_file f fs) ≡ f.size_bytes + size_all fs
unfolding insert_file size_all
size_all-insert_file f [] = omega arith
size_all-insert_file f (g ∷ gs) = ground (arith, size_all-insert_file f gs)

length-sort_files : (fs : List RecordingFile) → length (sort_files fs) ≡ length fs
unfolding sort_files
length-sort_files [] = refl
length-sort_files (f ∷ fs) =
    omega (arith, length-sort_files fs, length-insert_file f (sort_files fs))

pub size_all-sort_files : (fs : List RecordingFile) → size_all (sort_files fs) ≡ size_all fs
unfolding sort_files size_all
size_all-sort_files [] = refl
size_all-sort_files (f ∷ fs) =
    omega (arith, size_all-sort_files fs, size_all-insert_file f (sort_files fs))

surviving-unmarked : (fs : List RecordingFile) → surviving (unmarked fs) ≡ length fs
unfolding surviving unmarked
surviving-unmarked [] = refl
surviving-unmarked (f ∷ fs) = omega (arith, surviving-unmarked fs)

size_kept-unmarked : (fs : List RecordingFile) → size_kept (unmarked fs) ≡ size_all fs
unfolding size_kept unmarked size_all
size_kept-unmarked [] = refl
size_kept-unmarked (f ∷ fs) = omega (arith, size_kept-unmarked fs)

length-paths : (fs : List RecordingFile) → length (paths fs) ≡ length fs
length-paths [] = refl
length-paths (f ∷ fs) = omega (arith, length-paths fs)

-- What a plan for `files` promises.
pub record Plans (policy : RetentionPolicy) (files : List RecordingFile) (plan : RetentionPlan)
    : Type 0 where
  pub every_file : plan.files_kept + length plan.to_delete ≡ length files
  pub every_byte : plan.bytes_kept + plan.bytes_reclaimed ≡ size_all files
  pub few : policy.max_files ≢ 0 → plan.files_kept ≤ policy.max_files
  pub small : policy.max_total_bytes ≢ 0 → plan.bytes_kept ≤ policy.max_total_bytes

-- For files of less than 2 ^ 64 bytes together, a plan keeps or deletes every file and reports every
-- byte as kept or reclaimed, and keeps no more files and no more bytes than the limits that are set.
pub plan_retention-Plans :
    (files : List RecordingFile) (policy : RetentionPolicy) (now : ℕ)
    → size_all files < 2 ^ 64
    → Plans policy files (plan_retention files policy now)
unfolding plan_retention
plan_retention-Plans files policy now fits =
    let sorted = sort_files files in
    let after = run_passes policy now (unmarked sorted) in
    let size = size_all-sort_files files in
    let kept = size_kept-unmarked sorted in
    let p = run_passes-Passed policy now (unmarked sorted) (omega (arith, kept, size)) in
    let narrow = total_bytes_of-size_kept after.0 in
    let reclaimed = bytes_of_files-size_all after.1 in
    record {
      every_file = omega (
        arith,
        p.accounts.files,
        length-paths after.1,
        surviving-unmarked sorted,
        length-sort_files files,
      );
      every_byte = omega (arith, p.accounts.bytes, narrow, reclaimed, kept, size);
      few = p.few;
      small = λ on. omega (arith, p.small on, p.accounts.bytes, narrow, kept, size);
    }
