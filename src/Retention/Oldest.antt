-- ===== src/Retention/Oldest.antt =====
-- Which files a plan deletes (src/recording/retention.cpp).
use mathlib.Core.List.{Perm}
use mathlib.Core.List.Perm
use rtmp_core.Base.{
  ℕ, ◌+◌, ◌-◌, ◌%◌, ◌^◌, ◌≤◌, ◌<◌, ◌≡◌, ◌≢◌, refl, ap, inl, inr, true, false, ltb, leb, ◌==◌, List,
  [], ◌∷◌, ◌++◌, All, append_assoc, append-nil, length, arith, Bool-cases,
}
use rtmp_core.Retention.{
  RecordingFile, insert_file, sort_files, Marks, unmarked, surviving, total_bytes_of, drop_old,
  drop_many, drop_large, when,
}
use rtmp_core.Retention.Limits.{size_all}

-- Oldest first.
abbrev pub Ascending : List RecordingFile → Type 0
Ascending [] = Unit
Ascending (f ∷ fs) = All (λ g. f.modified ≤ g.modified) fs × Ascending fs

insert_file-All :
    (P : RecordingFile → Type 0) (f : RecordingFile) (fs : List RecordingFile)
    → P f
    → All P fs
    → All P (insert_file f fs)
unfolding insert_file
insert_file-All P f [] p all = (p, tt)
insert_file-All P f (g ∷ gs) p (q, all) = elim (Bool-cases (leb f.modified g.modified)) [
  | inl first ↦ rw first (p, (q, all))
  | inr later ↦ rw later (q, insert_file-All P f gs p all)
]

older-All :
    (m n : ℕ) (fs : List RecordingFile)
    → m ≤ n
    → All (λ g. n ≤ g.modified) fs
    → All (λ g. m ≤ g.modified) fs
older-All m n [] h all = tt
older-All m n (g ∷ gs) h (p, all) = (omega (arith, h, p), older-All m n gs h all)

insert_file-Ascending :
    (f : RecordingFile) (fs : List RecordingFile) → Ascending fs → Ascending (insert_file f fs)
unfolding insert_file
insert_file-Ascending f [] asc = (tt, tt)
insert_file-Ascending f (g ∷ gs) (low, asc) = elim (Bool-cases (leb f.modified g.modified)) [
  | inl first ↦
      let le : f.modified ≤ g.modified = ground arith in
      rw first ((le, older-All f.modified g.modified gs le low), (low, asc))
  | inr later ↦
      let le : g.modified ≤ f.modified = ground arith in
      rw later
        (insert_file-All (λ h. g.modified ≤ h.modified) f gs le low, insert_file-Ascending f gs asc)
]

pub sort_files-Ascending : (fs : List RecordingFile) → Ascending (sort_files fs)
unfolding sort_files
sort_files-Ascending [] = tt
sort_files-Ascending (f ∷ fs) = insert_file-Ascending f (sort_files fs) (sort_files-Ascending fs)

insert_file-Perm : (f : RecordingFile) (fs : List RecordingFile) → Perm (insert_file f fs) (f ∷ fs)
unfolding insert_file
insert_file-Perm f [] = Perm.refl (f ∷ [])
insert_file-Perm f (g ∷ gs) = elim (Bool-cases (leb f.modified g.modified)) [
  | inl first ↦ rw first (Perm.refl (f ∷ g ∷ gs))
  | inr later ↦ rw later (Perm.trans (Perm.cons g (insert_file-Perm f gs)) (Perm.swap f g gs))
]

pub sort_files-Perm : (fs : List RecordingFile) → Perm (sort_files fs) fs
unfolding sort_files
sort_files-Perm [] = Perm.refl []
sort_files-Perm (f ∷ fs) =
    Perm.trans (insert_file-Perm f (sort_files fs)) (Perm.cons f (sort_files-Perm fs))

-- Files that are marked, in front of others.
abbrev pub with_gone : List RecordingFile → Marks → Marks
with_gone [] ms = ms
with_gone (f ∷ fs) ms = (f, true) ∷ with_gone fs ms

-- Each of the files at the front has a reason about it and those behind it.
abbrev pub Reasons :
    (List RecordingFile → Type 0) → List RecordingFile → List RecordingFile → Type 0
Reasons Why [] left = Unit
Reasons Why (f ∷ front) left = Why (f ∷ (front ++ left)) × Reasons Why front left

-- A pass over files of which the first, `gone`, were dropped before: it drops the next ones.
pub record Cuts (Why : List RecordingFile → Type 0) (gone k : List RecordingFile)
    (r : Marks × List RecordingFile) : Type 0 where
  pub front : List RecordingFile
  pub left : List RecordingFile
  pub split : k ≡ front ++ left
  pub result : r ≡ (with_gone (gone ++ front) (unmarked left), front)
  pub why : Reasons Why front left

abbrev pub Expired : ℕ → ℕ → List RecordingFile → Type 0
Expired now age [] = ⊥
Expired now age (f ∷ fs) = f.modified + age < now

abbrev pub IsYoung : ℕ → ℕ → RecordingFile → Type 0
IsYoung now age f = now ≤ f.modified + age

drop_old_none :
    (now age : ℕ) (fs : List RecordingFile)
    → All (IsYoung now age) fs
    → drop_old now age (unmarked fs) ≡ (unmarked fs, [])
unfolding drop_old unmarked
drop_old_none now age [] all = refl
drop_old_none now age (f ∷ fs) (young, all) =
    let stays : ltb (f.modified + age) now ≡ false = ground arith in
    rw (stays, drop_old_none now age fs all) refl

older-IsYoung :
    (now age m : ℕ) (fs : List RecordingFile)
    → now ≤ m + age
    → All (λ g. m ≤ g.modified) fs
    → All (IsYoung now age) fs
older-IsYoung now age m [] h all = tt
older-IsYoung now age m (f ∷ fs) h (p, all) =
    (omega (arith, h, p), older-IsYoung now age m fs h all)

drop_old-Cuts :
    (now age : ℕ) (fs : List RecordingFile)
    → Ascending fs
    → (c : Cuts (Expired now age) [] fs (drop_old now age (unmarked fs))) × All
        (IsYoung now age)
        c.left
unfolding drop_old unmarked
drop_old-Cuts now age [] asc =
    (record { front = []; left = []; split = refl; result = refl; why = tt }, tt)
drop_old-Cuts now age (f ∷ fs) (low, asc) = elim (Bool-cases (ltb (f.modified + age) now)) [
  | inl old ↦
      let expired : f.modified + age < now = ground arith in
      let (c, young) = drop_old-Cuts now age fs asc in
      (
        record {
          front = f ∷ c.front;
          left = c.left;
          split = ap (◌∷◌ f) c.split;
          result = rw (old, c.result) refl;
          why = (expired, c.why);
        },
        young,
      )
  | inr stays ↦
      let young : now ≤ f.modified + age = ground arith in
      let all = older-IsYoung now age f.modified fs young low in
      (
        record {
          front = [];
          left = f ∷ fs;
          split = refl;
          result = rw (stays, drop_old_none now age fs all) refl;
          why = tt;
        },
        (young, all),
      )
]

abbrev pub Many : ℕ → List RecordingFile → Type 0
Many n fs = n < length fs

pub drop_many-Cuts :
    (n count : ℕ) (gone k : List RecordingFile)
    → count ≡ length k
    → Cuts (Many n) gone k (drop_many n count (with_gone gone (unmarked k)))
unfolding drop_many unmarked
drop_many-Cuts n count [] [] e = record {
  front = [];
  left = [];
  split = refl;
  result = refl;
  why = tt;
}
drop_many-Cuts n count [] (f ∷ k) e = elim (Bool-cases (ltb n count)) [
  | inl over ↦
      let more : n < length (f ∷ k) = ground arith in
      let c = drop_many-Cuts n (count - 1) [] k (omega (arith, e)) in
      record {
        front = f ∷ c.front;
        left = c.left;
        split = ap (◌∷◌ f) c.split;
        result = rw (over, c.result) refl;
        why = ((omega (arith, more, ap length c.split)), c.why);
      }
  | inr under ↦ record { front = []; left = f ∷ k; split = refl; result = rw under refl; why = tt }
]
drop_many-Cuts n count (g ∷ gone) k e =
    let c = drop_many-Cuts n count gone k e in
    elim (Bool-cases (ltb n count)) [
      | inl over ↦ record {
        front = c.front;
        left = c.left;
        split = c.split;
        result = rw (over, c.result) refl;
        why = c.why;
      }
      | inr under ↦ record {
        front = [];
        left = k;
        split = refl;
        result = rw (under, append-nil gone) refl;
        why = tt;
      }
    ]

abbrev pub Big : ℕ → List RecordingFile → Type 0
Big n fs = n < size_all fs

pub drop_large-Cuts :
    (n total : ℕ) (gone k : List RecordingFile)
    → total ≡ size_all k
    → total < 2 ^ 64
    → Cuts (Big n) gone k (drop_large n total (with_gone gone (unmarked k)))
unfolding drop_large unmarked size_all
drop_large-Cuts n total [] [] e small = record {
  front = [];
  left = [];
  split = refl;
  result = refl;
  why = tt;
}
drop_large-Cuts n total [] (f ∷ k) e small = elim (Bool-cases (ltb n total)) [
  | inl over ↦
      let more : n < f.size_bytes + size_all k = ground arith in
      let total' = (total + 2 ^ 64 - f.size_bytes) % 2 ^ 64 in
      let c = drop_large-Cuts n total' [] k (omega (arith, e, small)) (omega arith) in
      record {
        front = f ∷ c.front;
        left = c.left;
        split = ap (◌∷◌ f) c.split;
        result = rw (over, c.result) refl;
        why = (omega (arith, more, ap size_all c.split), c.why);
      }
  | inr under ↦ record { front = []; left = f ∷ k; split = refl; result = rw under refl; why = tt }
]
drop_large-Cuts n total (g ∷ gone) k e small =
    let c = drop_large-Cuts n total gone k e small in
    elim (Bool-cases (ltb n total)) [
      | inl over ↦ record {
        front = c.front;
        left = c.left;
        split = c.split;
        result = rw (over, c.result) refl;
        why = c.why;
      }
      | inr under ↦ record {
        front = [];
        left = k;
        split = refl;
        result = rw (under, append-nil gone) refl;
        why = tt;
      }
    ]

pub Reasons-weaker :
    (V W : List RecordingFile → Type 0)
    → ((fs : List RecordingFile) → V fs → W fs)
    → (front left : List RecordingFile) → Reasons V front left
    → Reasons W front left
Reasons-weaker V W f [] left r = tt
Reasons-weaker V W f (x ∷ front) left (v, r) =
    (f (x ∷ (front ++ left)) v, Reasons-weaker V W f front left r)

pub Reasons-append :
    (W : List RecordingFile → Type 0) (a b left : List RecordingFile)
    → Reasons W a (b ++ left)
    → Reasons W b left
    → Reasons W (a ++ b) left
Reasons-append W [] b left r r' = r'
Reasons-append W (x ∷ a) b left (w, r) r' =
    (rw (append_assoc a b left) w, Reasons-append W a b left r r')

-- A limit of 0 drops nothing.
pub when-Cuts :
    (W : List RecordingFile → Type 0) (limit : ℕ) (gone k : List RecordingFile)
    (pass : Marks × List RecordingFile)
    → Cuts W gone k pass
    → Cuts (λ fs. (limit ≢ 0) × W fs) gone k (when limit pass (with_gone gone (unmarked k)))
when-Cuts W limit gone k pass c = elim (Bool-cases (limit == 0)) [
  | inl off ↦ record {
    front = [];
    left = k;
    split = refl;
    result = rw (off, append-nil gone) refl;
    why = tt;
  }
  | inr on ↦
      let set' : limit ≢ 0 = ground arith in
      record {
        front = c.front;
        left = c.left;
        split = c.split;
        result = rw on c.result;
        why = Reasons-weaker W (λ fs. (limit ≢ 0) × W fs) (λ fs w. (set', w)) c.front c.left c.why;
      }
]

pub when_old-Cuts :
    (now age : ℕ) (fs : List RecordingFile)
    → Ascending fs
    → (c : Cuts
        (λ gs. (age ≢ 0) × Expired now age gs)
        []
        fs
        (when age (drop_old now age (unmarked fs)) (unmarked fs)))
      × (age ≢ 0 → All (IsYoung now age) c.left)
when_old-Cuts now age fs asc = elim (Bool-cases (age == 0)) [
  | inl off ↦ (
    record { front = []; left = fs; split = refl; result = rw off refl; why = tt },
    λ on. absurd (on (ground arith)),
  )
  | inr set' ↦
      let (c, young) = drop_old-Cuts now age fs asc in
      let on : age ≢ 0 = ground arith in
      (
        record {
          front = c.front;
          left = c.left;
          split = c.split;
          result = rw set' c.result;
          why =
              Reasons-weaker (Expired now age) (λ gs. (age ≢ 0) × Expired now age gs)
                (λ gs w. (on, w)) c.front c.left c.why;
        },
        λ on'. young,
      )
]

pub surviving-with_gone :
    (gone k : List RecordingFile) → surviving (with_gone gone (unmarked k)) ≡ length k
unfolding surviving unmarked
surviving-with_gone [] [] = refl
surviving-with_gone [] (f ∷ k) = omega (arith, surviving-with_gone [] k)
surviving-with_gone (g ∷ gone) k = surviving-with_gone gone k

pub total_bytes_of-with_gone :
    (gone k : List RecordingFile)
    → size_all k < 2 ^ 64
    → total_bytes_of (with_gone gone (unmarked k)) ≡ size_all k
unfolding total_bytes_of unmarked size_all
total_bytes_of-with_gone [] [] small = refl
total_bytes_of-with_gone [] (f ∷ k) small =
    omega (arith, total_bytes_of-with_gone [] k (omega (arith, small)), small)
total_bytes_of-with_gone (g ∷ gone) k small = total_bytes_of-with_gone gone k small
