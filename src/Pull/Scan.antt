-- ===== src/Pull/Scan.antt =====
-- engine/src/queue/pull.rs: which jobs the scan of a heap hands out.
use flashq.Prelude.{
  ℕ, zero, suc, ◌+◌, ◌≤◌, ◌≡◌, refl, inl, inr, String, true, false, Option, none, some, List, [],
  ◌∷◌, ◌++◌, arith, All, All-append, All-map, length, length-append, contains, string_eq,
  Bool-cases, Option-cases,
}
use flashq.Protocol.Job.{Job, is_ready, is_expired}
use flashq.Ipq
use flashq.Ipq.{Ipq}
use flashq.Pull.{Scanned, start_job, in_group, taken_groups, scan}

-- The job may be handed out while the groups are busy.
pub record MayStart (now : ℕ) (groups : List String) (job : Job) : Type 0 where
  pub unexpired : is_expired job now ≡ false
  pub ready : is_ready job now ≡ true
  pub idle : in_group groups job.group_id ≡ false
  pub stamped : (job.started_at ≡ now) × (job.last_heartbeat ≡ now)

-- The two jobs are not of one group.
abbrev pub Differ : Job → Job → Type 0
Differ a b = (g : String) → a.group_id ≡ some g → b.group_id ≡ some g → ⊥

abbrev pub OnePerGroup : List Job → Type 0
OnePerGroup [] = Unit
OnePerGroup (j ∷ js) = All (Differ j) js × OnePerGroup js

OnePerGroup-snoc :
    (jobs : List Job) (job : Job)
    → OnePerGroup jobs
    → All (λ j. Differ j job) jobs
    → OnePerGroup (jobs ++ job ∷ [])
OnePerGroup-snoc [] job h k = (tt, tt)
OnePerGroup-snoc (j ∷ js) job h k =
    (All-append (Differ j) js (job ∷ []) h.0 (k.0, tt), OnePerGroup-snoc js job h.1 k.1)

-- The group of a job, if it has one, is among the busy ones.
abbrev Busy : List String → Job → Type 0
Busy groups job = (g : String) → job.group_id ≡ some g → contains groups g ≡ true

-- What holds of the jobs taken so far; `before` are the groups busy at the start.
record Taken (now : ℕ) (before groups : List String) (jobs : List Job) : Type 0 where
  may_start : All (MayStart now before) jobs
  one_per_group : OnePerGroup jobs
  busy : All (Busy groups) jobs
  grown : (g : String) → contains before g ≡ true → contains groups g ≡ true

idle_before :
    (before groups : List String) (gid : Option String)
    → ((g : String) → contains before g ≡ true → contains groups g ≡ true)
    → in_group groups gid ≡ false
    → in_group before gid ≡ false
idle_before before groups none f h = refl
idle_before before groups (some g) f h = elim (Bool-cases (contains before g)) [
  | inl k ↦ cc (f g k)
  | inr k ↦ k
]

busy-Differ :
    (groups : List String) (j job : Job)
    → in_group groups job.group_id ≡ false
    → Busy groups j
    → Differ j job
busy-Differ groups j job h b g p q = go (rw q at h) (b g p)
  where
    go : contains groups g ≡ false → contains groups g ≡ true → ⊥
    go x y = cc

contains_grown :
    (groups : List String) (gid : Option String) (g : String)
    → contains groups g ≡ true
    → contains (taken_groups groups gid) g ≡ true
unfolding contains
contains_grown groups none g h = h
contains_grown groups (some x) g h = ground arith

contains_own :
    (groups : List String) (gid : Option String) (g : String)
    → gid ≡ some g
    → contains (taken_groups groups gid) g ≡ true
unfolding contains
contains_own groups none g h = cc
contains_own groups (some x) g h = ground (arith, string_eq.test_iff x g)

Taken-take :
    (now : ℕ) (before groups : List String) (jobs : List Job) (job : Job)
    → Taken now before groups jobs
    → is_expired job now ≡ false
    → is_ready job now ≡ true
    → in_group groups job.group_id ≡ false
    → Taken now before (taken_groups groups job.group_id) (jobs ++ start_job job now ∷ [])
Taken-take now before groups jobs job t unexpired ready idle = record {
  may_start = All-append (MayStart now before) jobs _ t.may_start (
    record {
      unexpired = unexpired;
      ready = ready;
      idle = idle_before before groups job.group_id t.grown idle;
      stamped = (refl, refl);
    },
    tt,
  );
  one_per_group = OnePerGroup-snoc jobs (start_job job now) t.one_per_group (
      All-map (Busy groups) (λ j. Differ j (start_job job now)) jobs
        (λ j b. busy-Differ groups j (start_job job now) idle b) t.busy);
  busy =
      All-append (Busy (taken_groups groups job.group_id)) jobs _
        (All-map (Busy groups) (Busy (taken_groups groups job.group_id)) jobs
          (λ j b g h. contains_grown groups job.group_id g (b g h)) t.busy)
        (λ g h. contains_own groups job.group_id g h, tt);
  grown = λ g h. contains_grown groups job.group_id g (t.grown g h);
}

-- The outcomes of one round of the scan, the calls that follow left as they stand.
data Round (fuel now : ℕ) (groups : List String) (want : ℕ) (heap : Ipq) (skipped jobs : List Job)
    (r : Scanned) : Type 0 where
  stops : r.handed ≡ jobs → Round fuel now groups want heap skipped jobs r
  drops :
      r ≡ scan fuel now groups (suc want) (Ipq.pop heap).1 skipped jobs
      → Round fuel now groups want heap skipped jobs r
  skips :
      (job : Job)
      → r ≡ scan fuel now groups (suc want) (Ipq.pop heap).1 (skipped ++ job ∷ []) jobs
      → Round fuel now groups want heap skipped jobs r
  takes :
      (job : Job)
      → is_expired job now ≡ false
      → is_ready job now ≡ true
      → in_group groups job.group_id ≡ false
      → r
        ≡ scan fuel now
            (taken_groups groups job.group_id)
            want
            (Ipq.pop heap).1
            skipped
            (jobs ++ start_job job now ∷ [])
      → Round fuel now groups want heap skipped jobs r

scan-Round :
    (fuel now : ℕ) (groups : List String) (want : ℕ) (heap : Ipq) (skipped jobs : List Job)
    → Round fuel now groups want heap skipped jobs
        (scan (suc fuel) now groups (suc want) heap skipped jobs)
unfolding scan
scan-Round fuel now groups want heap skipped jobs = elim (Option-cases (Ipq.pop heap).0) [
  | inl e ↦ stops (rw (e, scan) refl)
  | inr (job, e) ↦ elim (Bool-cases (is_expired job now)) [
    | inl x ↦ drops (rw (e, scan) (rw x refl))
    | inr x ↦ elim (Bool-cases (is_ready job now)) [
      | inr y ↦ stops (rw (e, scan) (rw (x, y) refl))
      | inl y ↦ elim (Bool-cases (in_group groups job.group_id)) [
        | inl z ↦ skips job (rw (e, scan) (rw (x, y, z) refl))
        | inr z ↦ takes job x y z (rw (e, scan) (rw (x, y, z) refl))
      ]
    ]
  ]
]

-- What holds of the jobs handed out.
pub record Fair (now : ℕ) (groups : List String) (bound : ℕ) (jobs : List Job) : Type 0 where
  pub may_start : All (MayStart now groups) jobs
  pub one_per_group : OnePerGroup jobs
  pub bounded : length jobs ≤ bound

Fair-of_Taken :
    (now : ℕ) (before groups : List String) (bound : ℕ) (jobs handed : List Job)
    → handed ≡ jobs
    → Taken now before groups jobs
    → length jobs ≤ bound
    → Fair now before bound handed
Fair-of_Taken now before groups bound jobs handed e t le =
    rw e (record { may_start = t.may_start; one_per_group = t.one_per_group; bounded = le })

Fair-of_eq :
    (now : ℕ) (groups : List String) (bound : ℕ) (r s : Scanned)
    → r ≡ s
    → Fair now groups bound s.handed
    → Fair now groups bound r.handed
Fair-of_eq now groups bound r s e f = rw e f

pub scan_stops :
    (fuel now : ℕ) (groups : List String) (heap : Ipq) (skipped jobs : List Job)
    → (scan fuel now groups 0 heap skipped jobs).handed ≡ jobs
unfolding scan
scan_stops zero now groups heap skipped jobs = refl
scan_stops (suc fuel) now groups heap skipped jobs = refl

scan_dry :
    (now : ℕ) (groups : List String) (want : ℕ) (heap : Ipq) (skipped jobs : List Job)
    → (scan 0 now groups want heap skipped jobs).handed ≡ jobs
unfolding scan
scan_dry now groups want heap skipped jobs = refl

pub Fair-mono :
    (now : ℕ) (groups : List String) (a b : ℕ) (jobs : List Job)
    → a ≤ b
    → Fair now groups a jobs
    → Fair now groups b jobs
Fair-mono now groups a b jobs le f = record {
  may_start = f.may_start;
  one_per_group = f.one_per_group;
  bounded = omega (arith, f.bounded);
}

scan_from-Fair :
    (now : ℕ) (before : List String) (fuel : ℕ) (groups : List String) (want : ℕ) (heap : Ipq)
    (skipped jobs : List Job)
    → Taken now before groups jobs
    → Fair now before (length jobs + want) (scan fuel now groups want heap skipped jobs).handed
scan_from-Fair now before zero groups want heap skipped jobs t =
    Fair-of_Taken now before groups _ jobs _ (scan_dry now groups want heap skipped jobs) t
      (omega arith)
scan_from-Fair now before (suc fuel) groups zero heap skipped jobs t =
    Fair-of_Taken now before groups _ jobs _ (scan_stops (suc fuel) now groups heap skipped jobs) t
      (omega arith)
scan_from-Fair now before (suc fuel) groups (suc want) heap skipped jobs t =
    elim (scan-Round fuel now groups want heap skipped jobs) [
      | stops e ↦ Fair-of_Taken now before groups _ jobs _ e t (omega arith)
      | drops e ↦
          Fair-of_eq now before _ _ _ e
            (scan_from-Fair now before fuel groups (suc want) (Ipq.pop heap).1 skipped jobs t)
      | skips job e ↦ Fair-of_eq now before _ _ _ e (
          scan_from-Fair now before fuel groups (suc want) (Ipq.pop heap).1 (skipped ++ job ∷ [])
            jobs t)
      | takes job x y z e ↦ Fair-of_eq now before _ _ _ e (
          Fair-mono now before _ _ _ (omega (arith, length-append jobs (start_job job now ∷ []))) (
            scan_from-Fair now before fuel (taken_groups groups job.group_id) want (Ipq.pop heap).1
              skipped (jobs ++ start_job job now ∷ [])
              (Taken-take now before groups jobs job t x y z)))
    ]

-- Whatever the heap holds, the jobs that a scan hands out are no more than it was asked for, have
-- not expired, are ready, stem from no busy group, are stamped with the time, and no two of them
-- are of one group.
pub scan-Fair :
    (fuel now : ℕ) (groups : List String) (want : ℕ) (heap : Ipq)
    → Fair now groups want (scan fuel now groups want heap [] []).handed
scan-Fair fuel now groups want heap = Fair-mono now groups (0 + want) want _ (omega arith) (
    scan_from-Fair now groups fuel groups want heap [] []
      (record { may_start = tt; one_per_group = tt; busy = tt; grown = λ g h. h }))
