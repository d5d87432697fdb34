-- ===== src/Retention/Plan.antt =====
-- Which files a plan deletes, and why (src/recording/retention.cpp).
use mathlib.Core.List.{Perm}
use rtmp_core.Base.{
  ℕ, ◌+◌, ◌^◌, ◌≤◌, ◌<◌, ◌≡◌, ◌≢◌, ◌⊎◌, refl, sym, ap, ◌∙◌, inl, inr, List, [], ◌∷◌, ◌++◌, All,
  append_assoc, length, arith,
}
use mathlib.Core.Path.{subst}
use rtmp_core.Retention.{
  RetentionPolicy, RecordingFile, RetentionPlan, sort_files, Marks, unmarked, paths, bytes_of_files,
  surviving, total_bytes_of, drop_many, drop_large, when, run_passes, plan_retention,
}
use rtmp_core.Retention.Limits.{
  size_all, size_all-append, size_all-sort_files, bytes_of_files-size_all, plan_retention-Plans,
}
use rtmp_core.Retention.Oldest.{
  Ascending, sort_files-Ascending, sort_files-Perm, with_gone, Reasons, Expired, Many, Big, IsYoung,
  drop_many-Cuts, drop_large-Cuts, when-Cuts, when_old-Cuts, Reasons-weaker, Reasons-append,
  surviving-with_gone, total_bytes_of-with_gone,
}

abbrev pub paths_of : List RecordingFile → List (List ℕ)
paths_of [] = []
paths_of (f ∷ fs) = f.path ∷ paths_of fs

paths-paths_of : (fs : List RecordingFile) → paths fs ≡ paths_of fs
paths-paths_of [] = refl
paths-paths_of (f ∷ fs) = ap (◌∷◌ f.path) (paths-paths_of fs)

-- Why the first of these files, the oldest that is left, goes: it is expired, or they are too many, or
-- too large together. A limit of 0 is none.
abbrev pub Reason : RetentionPolicy → ℕ → List RecordingFile → Type 0
Reason policy now fs =
    ((policy.max_age ≢ 0) × Expired now policy.max_age fs)
    ⊎ ((policy.max_files ≢ 0) × Many policy.max_files fs)
    ⊎ ((policy.max_total_bytes ≢ 0) × Big policy.max_total_bytes fs)

-- The marks after the passes, for files in order of age.
record Ran (policy : RetentionPolicy) (now : ℕ) (fs : List RecordingFile)
    (after : Marks × List RecordingFile) : Type 0 where
  pub gone : List RecordingFile
  pub kept : List RecordingFile
  pub split : fs ≡ gone ++ kept
  pub result : after ≡ (with_gone gone (unmarked kept), gone)
  pub why : Reasons (Reason policy now) gone kept
  pub young : policy.max_age ≢ 0 → All (IsYoung now policy.max_age) kept

All-back : (P : RecordingFile → Type 0) (a b : List RecordingFile) → All P (a ++ b) → All P b
All-back P [] b all = all
All-back P (x ∷ a) b (p, all) = All-back P a b all

abbrev Pass : Type 0
Pass = Marks × List RecordingFile

abbrev third : RetentionPolicy → List RecordingFile → Pass → Pass
third policy old counted =
    let sized =
      when policy.max_total_bytes
        (drop_large policy.max_total_bytes (total_bytes_of counted.0) counted.0) counted.0 in
    (sized.0, old ++ (counted.1 ++ sized.1))

abbrev second : RetentionPolicy → Pass → Pass
second policy aged =
    third policy aged.1
      (when policy.max_files (drop_many policy.max_files (surviving aged.0) aged.0) aged.0)

run_passes-Ran :
    (policy : RetentionPolicy) (now : ℕ) (fs : List RecordingFile)
    → Ascending fs
    → size_all fs < 2 ^ 64
    → Ran policy now fs (run_passes policy now (unmarked fs))
unfolding run_passes
run_passes-Ran policy now fs asc fits =
    let (c1, young) = when_old-Cuts now policy.max_age fs asc in
    let g1 = c1.front in
    let ms1 = with_gone g1 (unmarked c1.left) in
    let c2 = when-Cuts (Many policy.max_files) policy.max_files g1 c1.left _ (
      drop_many-Cuts policy.max_files (surviving ms1) g1 c1.left
        (surviving-with_gone g1 c1.left)) in
    let g2 = c2.front in
    let ms2 = with_gone (g1 ++ g2) (unmarked c2.left) in
    let split2 : fs ≡ g1 ++ (g2 ++ c2.left) = c1.split ∙ ap (◌++◌ g1) c2.split in
    let small : size_all c2.left < 2 ^ 64 = omega (
      arith,
      fits,
      ap size_all split2,
      size_all-append g1 (g2 ++ c2.left),
      size_all-append g2 c2.left,
    ) in
    let same = total_bytes_of-with_gone (g1 ++ g2) c2.left small in
    let c3 = when-Cuts (Big policy.max_total_bytes) policy.max_total_bytes (g1 ++ g2) c2.left _ (
      drop_large-Cuts policy.max_total_bytes (total_bytes_of ms2) (g1 ++ g2) c2.left same
        (omega (arith, same, small))) in
    let g3 = c3.front in
    let kept = c3.left in
    let left2 : c2.left ≡ g3 ++ kept = c3.split in
    let left1 : c1.left ≡ g2 ++ (g3 ++ kept) = c2.split ∙ ap (◌++◌ g2) left2 in
    let back : (g2 ++ g3) ++ kept ≡ g2 ++ (g3 ++ kept) = append_assoc g2 g3 kept in
    let old = Reasons-weaker _ (Reason policy now) (λ gs w. inl w) g1 c1.left c1.why in
    let many = Reasons-weaker _ (Reason policy now) (λ gs w. inr (inl w)) g2 c2.left c2.why in
    let large = Reasons-weaker _ (Reason policy now) (λ gs w. inr (inr w)) g3 kept c3.why in
    record {
      gone = g1 ++ (g2 ++ g3);
      kept = kept;
      split = c1.split ∙ ap (◌++◌ g1) (left1 ∙ sym back) ∙ sym (append_assoc g1 (g2 ++ g3) kept);
      result =
          ap (second policy) c1.result
          ∙ ap (third policy g1) c2.result
          ∙ ap (λ (s : Pass). (s.0, g1 ++ (g2 ++ s.1))) c3.result
          ∙ ap (λ gs. (with_gone gs (unmarked kept), g1 ++ (g2 ++ g3))) (append_assoc g1 g2 g3);
      why =
          Reasons-append (Reason policy now) g1 (g2 ++ g3) kept
            (subst (Reasons (Reason policy now) g1) (left1 ∙ sym back) old)
            (Reasons-append (Reason policy now) g2 g3 kept
              (subst (Reasons (Reason policy now) g2) left2 many) large);
      young = λ on. All-back (IsYoung now policy.max_age) g3 kept (
          All-back (IsYoung now policy.max_age) g2 (g3 ++ kept)
            (subst (All (IsYoung now policy.max_age)) left1 (young on)));
    }

-- What a plan for `files` at the time `now` promises: the files are parted into `gone` and `kept`, and
-- every one of `gone` is at most as new as those behind it and as all that are kept.
pub record Deletes (policy : RetentionPolicy) (now : ℕ) (files : List RecordingFile)
    (plan : RetentionPlan) : Type 0 where
  pub gone : List RecordingFile
  pub kept : List RecordingFile
  pub parted : Perm (gone ++ kept) files
  pub oldest : Ascending (gone ++ kept)
  pub deleted : plan.to_delete ≡ paths_of gone
  pub reclaimed : plan.bytes_reclaimed ≡ size_all gone
  pub kept_files : plan.files_kept ≡ length kept
  pub kept_bytes : plan.bytes_kept ≡ size_all kept
  pub young : policy.max_age ≢ 0 → All (IsYoung now policy.max_age) kept
  pub few : policy.max_files ≢ 0 → length kept ≤ policy.max_files
  pub small : policy.max_total_bytes ≢ 0 → size_all kept ≤ policy.max_total_bytes
  pub why : Reasons (Reason policy now) gone kept

-- For files of less than 2 ^ 64 bytes together, a plan parts the files: it lists the paths of the oldest,
-- in order of age, and keeps the others, and it reports the bytes of both and the number of those kept.
-- Of the limits that are set, what is kept exceeds none: no file is too old, and they are neither too
-- many nor too large together. And no file goes without need: each that goes is expired, or it and
-- all that are newer are too many, or too large together.
pub plan_retention-Deletes :
    (files : List RecordingFile) (policy : RetentionPolicy) (now : ℕ)
    → size_all files < 2 ^ 64
    → Deletes policy now files (plan_retention files policy now)
unfolding plan_retention
plan_retention-Deletes files policy now fits =
    let sorted = sort_files files in
    let size = size_all-sort_files files in
    let ran =
      run_passes-Ran policy now sorted (sort_files-Ascending files) (omega (arith, fits, size)) in
    let plans = plan_retention-Plans files policy now fits in
    let parts : size_all sorted ≡ size_all ran.gone + size_all ran.kept =
      ap size_all ran.split ∙ size_all-append ran.gone ran.kept in
    let files_are =
      ap (λ (r : Pass). surviving r.0) ran.result ∙ surviving-with_gone ran.gone ran.kept in
    let bytes_are =
      ap (λ (r : Pass). total_bytes_of r.0) ran.result
      ∙ total_bytes_of-with_gone ran.gone ran.kept (omega (arith, fits, size, parts)) in
    record {
      gone = ran.gone;
      kept = ran.kept;
      parted = subst (λ xs. Perm xs files) ran.split (sort_files-Perm files);
      oldest = subst Ascending ran.split (sort_files-Ascending files);
      deleted = ap (λ (r : Pass). paths r.1) ran.result ∙ paths-paths_of ran.gone;
      reclaimed =
          ap (λ (r : Pass). bytes_of_files r.1) ran.result
          ∙ omega (arith, bytes_of_files-size_all ran.gone, fits, size, parts);
      kept_files = files_are;
      kept_bytes = bytes_are;
      young = ran.young;
      few = λ on. omega (arith, plans.few on, files_are);
      small = λ on. omega (arith, plans.small on, bytes_are);
      why = ran.why;
    }
