-- ===== src/Supervisor/Backoff.antt =====
-- How long a worker that failed is left alone.
use vehicle_intelligence.Prelude.{
  ℕ, zero, suc, ◌+◌, ◌-◌, ◌*◌, ◌^◌, ◌<◌, ◌≤◌, ◌≡◌, refl, sym, ◌∙◌, arith, min, Str, ◌==◌, eq_iff,
  eq_refl, eqb, ltb, leb, if◌then◌else◌, Option, none, some, Option-cases, List, [], ◌∷◌, true,
  false, ◌||◌, Bool-cases, inl, inr, Dict, get, contains, is_some, get-put, get-put_self, get-pop,
  IsDistinct, some_injective, none-ne-some,
}
use mathlib.Core.Path.{subst}
use native.Mathlib.Nat.{mul-le-mul_left}
use vehicle_intelligence.Supervisor.{
  Camera, ManagedWorker, CameraSupervisor, SupervisorSettings, World, backoff, or_zero,
  write_status, schedule_failure, is_current, starts_remaining, by_id, sorted_ids, undesired,
  forget_each,
}
use vehicle_intelligence.Supervisor.Reconcile.{
  worker_exited, check_worker, check_each, start_failed, started, start_outcome, start_camera,
  start_each, reconcile_workers,
}
use vehicle_intelligence.Supervisor.Current.{forget_each-active}
use vehicle_intelligence.Supervisor.Frames.{
  IsSame, IsSame-compose, forget_each-IsSame, undesired-member, check_worker-IsSame,
  check_each-IsSame,
}

-- A camera whose worker failed at a time, for so many times in a row.
pub record IsFailed {H S M : Type 0} (settings : SupervisorSettings) (j : Str) (now failures : ℕ)
    (s : CameraSupervisor H S M) : Type 0 where
  pub active : get s.active j ≡ none
  pub restart_after : get s.restart_after j ≡ some (now + backoff settings failures)
  pub failure_counts : get s.failure_counts j ≡ some failures

IsFailed-kept :
    {H S M : Type 0} {settings : SupervisorSettings} {j : Str} {now failures : ℕ}
    {s t : CameraSupervisor H S M}
    → IsFailed settings j now failures s
    → IsSame j s t
    → IsFailed settings j now failures t
IsFailed-kept h k = record {
  active = k.active ∙ h.active;
  restart_after = k.restart_after ∙ h.restart_after;
  failure_counts = k.failure_counts ∙ h.failure_counts;
}

is_current-listed :
    {H C : Type 0} (o : Option (Camera C)) (m : ManagedWorker H)
    → is_current o m ≡ true
    → is_some o ≡ true
is_current-listed none m h = ground (arith, h)
is_current-listed (some camera) m h = refl

power_positive : (n : ℕ) → 1 ≤ 2 ^ n
power_positive zero = omega arith
power_positive (suc n) = omega (arith, power_positive n)

power_suc : (n : ℕ) → 2 ^ suc n ≡ 2 * 2 ^ n
power_suc n = omega arith

doubled :
    (base power most : ℕ) → min (base * (2 * power)) most ≡ min (2 * min (base * power) most) most
doubled base power most =
    let twice : base * (2 * power) ≡ 2 * (base * power) = omega arith in rw twice (omega arith)

-- Where the maximum is not below the base, the delay after the first failure is the base. It doubles
-- with each of the next 20 failures in a row, up to the maximum, then it stays as it is. It is never
-- below the base nor above the maximum.
pub backoff_bounds :
    (c : SupervisorSettings) (failures : ℕ)
    → c.restart_backoff ≤ c.restart_backoff_max
    → 1 ≤ failures
    → (backoff c 1 ≡ c.restart_backoff)
      × (backoff c (failures + 1) ≡ (
          if leb failures 20
          then min (2 * backoff c failures) c.restart_backoff_max
          else backoff c failures))
      × (c.restart_backoff ≤ backoff c failures)
      × (backoff c failures ≤ c.restart_backoff_max)
unfolding backoff
backoff_bounds c failures h positive =
    let least : c.restart_backoff * 1 ≤ c.restart_backoff * 2 ^ min (failures - 1) 20 =
      mul-le-mul_left c.restart_backoff (power_positive (min (failures - 1) 20)) in
    (omega (arith, h), next, omega (arith, least, h), omega arith)
  where
    next : min (c.restart_backoff * 2 ^ min (failures + 1 - 1) 20) c.restart_backoff_max ≡ (
        if leb failures 20
        then min
            (2 * min (c.restart_backoff * 2 ^ min (failures - 1) 20) c.restart_backoff_max)
            c.restart_backoff_max
        else min (c.restart_backoff * 2 ^ min (failures - 1) 20) c.restart_backoff_max)
    next = elim (Bool-cases (leb failures 20)) [
      | inl few ↦
          let one_more : min (failures + 1 - 1) 20 ≡ suc (min (failures - 1) 20) =
            ground (arith, few, positive) in
          rw (few, one_more, power_suc (min (failures - 1) 20))
            (doubled c.restart_backoff (2 ^ min (failures - 1) 20) c.restart_backoff_max)
      | inr many ↦
          let same : min (failures + 1 - 1) 20 ≡ min (failures - 1) 20 = ground (arith, many) in
          rw (many, same) refl
    ]

module _ {H S M C : Type 0} (no_metrics : M) (settings : SupervisorSettings) where
  worker_exited-IsFailed :
      (w : World H C) (j : Str) (s : CameraSupervisor H S M) (count : Option ℕ)
      → get s.failure_counts j ≡ count
      → IsFailed settings j w.now (or_zero count + 1) (worker_exited no_metrics settings w j s)
  unfolding worker_exited schedule_failure write_status
  worker_exited-IsFailed w j s count e = record {
    active = get-pop s.active j j ∙ rw (eq_refl j) refl;
    restart_after = rw e (get-put_self s.restart_after j _);
    failure_counts = rw e (get-put_self s.failure_counts j _);
  }

  check_worker_exits :
      (w : World H C) (desired : Dict (Camera C)) (j : Str) (m : ManagedWorker H)
      (s : CameraSupervisor H S M)
      → is_current (get desired j) m ≡ true
      → w.running m.handle ≡ false
      → check_worker no_metrics settings w desired j m s ≡ worker_exited no_metrics settings w j s
  unfolding check_worker
  check_worker_exits w desired j m s current exited = rw (current, exited) refl

  check_each-IsFailed :
      (w : World H C) (desired : Dict (Camera C)) (workers : Dict (ManagedWorker H)) (j : Str)
      (m : ManagedWorker H) (s : CameraSupervisor H S M) (count : Option ℕ)
      → IsDistinct workers
      → get workers j ≡ some m
      → is_current (get desired j) m ≡ true
      → w.running m.handle ≡ false
      → get s.failure_counts j ≡ count
      → IsFailed settings j w.now
          (or_zero count + 1)
          (check_each no_metrics settings w desired workers s)
  unfolding check_each
  check_each-IsFailed w desired [] j m s count distinct at current exited e =
      absurd (none-ne-some at)
  check_each-IsFailed w desired ((i, n) ∷ workers) j m s count distinct at current exited e =
      elim (Bool-cases (i == j)) [
        | inr other ↦
            let same = check_worker-IsSame no_metrics settings w desired i j n s other in
            check_each-IsFailed w desired workers j m _ count distinct.1 (rw other at at) current
              exited (same.failure_counts ∙ e)
        | inl here ↦
            let where_at : i ≡ j = ground (arith, eq_iff i j, here) in
            let is : n ≡ m = some_injective (rw here at at) in
            let left : check_worker no_metrics settings w desired i n s
                ≡ worker_exited no_metrics settings w j s =
              rw (where_at, is) (check_worker_exits w desired j m s current exited) in
            IsFailed-kept
              (subst (λ t. IsFailed settings j w.now (or_zero count + 1) t) (sym left)
                (worker_exited-IsFailed w j s count e))
              (check_each-IsSame no_metrics settings w desired workers j _
                (subst (λ k. get workers k ≡ none) where_at distinct.0))
      ]

  -- a round of the starts, for another camera and for one that waits
  start_camera-IsSame :
      (o : Option (Camera C)) (w : World H C) (i j : Str) (s : CameraSupervisor H S M)
      (remaining : ℕ)
      → (i == j) ≡ false
      → IsSame j s (start_camera no_metrics settings o w i (s, remaining)).0
  unfolding started start_failed schedule_failure write_status
  start_camera-IsSame none w i j s remaining other = record {
    active = refl;
    restart_after = refl;
    failure_counts = refl;
  }
  start_camera-IsSame (some camera) w i j s remaining other =
      elim (Bool-cases (contains s.active i || ltb w.now (or_zero (get s.restart_after i)))) [
        | inl skipped ↦
            rw (skipped, start_camera)
              (record { active = refl; restart_after = refl; failure_counts = refl })
        | inr due ↦ elim (Bool-cases (eqb remaining 0)) [
          | inl full ↦
              rw (due, full, start_camera)
                (record { active = refl; restart_after = refl; failure_counts = refl })
          | inr room ↦ elim (Option-cases (w.start camera)) [
            | inl failed ↦
                rw (due, room, failed, start_camera, start_outcome)
                  (record {
                    active = refl;
                    restart_after = get-put s.restart_after i j _ ∙ rw other refl;
                    failure_counts = get-put s.failure_counts i j _ ∙ rw other refl;
                  })
            | inr (handle, outcome) ↦
                rw (due, room, start_camera, outcome, start_outcome)
                  (record {
                    active = get-put s.active i j _ ∙ rw other refl;
                    restart_after = get-pop s.restart_after i j ∙ rw other refl;
                    failure_counts = refl;
                  })
          ]
        ]
      ]

  start_camera_waits :
      (o : Option (Camera C)) (w : World H C) (j : Str) (s : CameraSupervisor H S M)
      (remaining time : ℕ)
      → get s.restart_after j ≡ some time
      → w.now < time
      → start_camera no_metrics settings o w j (s, remaining) ≡ (s, remaining)
  start_camera_waits none w j s remaining time at later = refl
  start_camera_waits (some camera) w j s remaining time at later =
      let early : ltb w.now (or_zero (get s.restart_after j)) ≡ true =
        rw at (ground (arith, later)) in
      let skipped : (contains s.active j || ltb w.now (or_zero (get s.restart_after j))) ≡ true =
        ground (arith, early) in
      rw (skipped, start_camera) refl

  start_each_waits :
      (w : World H C) (desired : Dict (Camera C)) (ids : List Str) (j : Str)
      (s : CameraSupervisor H S M) (remaining time : ℕ)
      → get s.restart_after j ≡ some time
      → w.now < time
      → IsSame j s (start_each no_metrics settings w desired ids (s, remaining)).0
  unfolding start_each
  start_each_waits w desired [] j s remaining time at later = record {
    active = refl;
    restart_after = refl;
    failure_counts = refl;
  }
  start_each_waits w desired (i ∷ ids) j s remaining time at later = elim (Bool-cases (i == j)) [
    | inl here ↦
        let where_at : j ≡ i = ground (arith, eq_iff i j, here) in
        let quiet : start_camera no_metrics settings (get desired i) w i (s, remaining)
            ≡ (s, remaining) =
          start_camera_waits (get desired i) w i s remaining time
            (subst (λ k. get s.restart_after k ≡ some time) where_at at) later in
        subst (λ r. IsSame j s (start_each no_metrics settings w desired ids r).0) (sym quiet)
          (start_each_waits w desired ids j s remaining time at later)
    | inr other ↦
        let next = start_camera no_metrics settings (get desired i) w i (s, remaining) in
        let same = start_camera-IsSame (get desired i) w i j s remaining other in
        IsSame-compose same
          (start_each_waits w desired ids j next.0 next.1 time (same.restart_after ∙ at) later)
  ]

  -- A camera that is listed and has no worker waits until its time.
  pub reconcile_waits :
      (w : World H C) (s : CameraSupervisor H S M) (j : Str) (time : ℕ)
      → contains (by_id [] w.cameras) j ≡ true
      → get s.active j ≡ none
      → get s.restart_after j ≡ some time
      → w.now < time
      → IsSame j s (reconcile_workers no_metrics settings w s)
  unfolding reconcile_workers
  reconcile_waits w s j time is_listed absent at later =
      let desired = by_id [] w.cameras in
      let gone = undesired s.restart_after desired in
      let known = forget_each no_metrics settings gone s in
      let checked = check_each no_metrics settings w desired known.active known in
      let forgot =
        forget_each-IsSame no_metrics settings j gone s
          (undesired-member s.restart_after desired j is_listed) in
      let same = IsSame-compose forgot (
        check_each-IsSame no_metrics settings w desired known.active j known
          (forgot.active ∙ absent)) in
      IsSame-compose same (
        start_each_waits w desired (sorted_ids desired) j checked
          (starts_remaining no_metrics settings checked) time (same.restart_after ∙ at) later)

  -- After a reconciliation that finds the worker of a listed camera exited, the camera has no worker,
  -- its failures are counted one more, and its delay runs from now.
  pub reconcile-IsFailed :
      (w : World H C) (s : CameraSupervisor H S M) (j : Str) (m : ManagedWorker H)
      → 0 < settings.restart_backoff
      → settings.restart_backoff ≤ settings.restart_backoff_max
      → IsDistinct s.active
      → get s.active j ≡ some m
      → is_current (get (by_id [] w.cameras) j) m ≡ true
      → w.running m.handle ≡ false
      → IsFailed settings j w.now
          (or_zero (get s.failure_counts j) + 1)
          (reconcile_workers no_metrics settings w s)
  unfolding reconcile_workers
  reconcile-IsFailed w s j m positive ordered distinct at current exited =
      let desired = by_id [] w.cameras in
      let gone = undesired s.restart_after desired in
      let known = forget_each no_metrics settings gone s in
      let checked = check_each no_metrics settings w desired known.active known in
      let failures = or_zero (get s.failure_counts j) + 1 in
      let forgot = forget_each-IsSame no_metrics settings j gone s (
        undesired-member s.restart_after desired j (is_current-listed (get desired j) m current)) in
      let whole : known.active ≡ s.active = forget_each-active no_metrics settings gone s in
      let failed : IsFailed settings j w.now failures checked =
        check_each-IsFailed w desired known.active j m known (get s.failure_counts j)
          (subst IsDistinct (sym whole) distinct) (forgot.active ∙ at) current exited
          forgot.failure_counts in
      let delayed = (backoff_bounds settings failures ordered (omega arith)).2 in
      IsFailed-kept failed (
        start_each_waits w desired (sorted_ids desired) j checked
          (starts_remaining no_metrics settings checked) (w.now + backoff settings failures)
          failed.restart_after (omega (arith, delayed, positive)))
