-- ===== src/Policy/Alerts/Transitions.antt =====
-- The alert workflow: what a transition does, and what no transition can do.
use vehicle_intelligence.Prelude.{
  ℕ, ◌+◌, ◌<◌, ◌≡◌, refl, sym, ap, ◌∙◌, Str, strip, is_empty, get, get-put, if◌then◌else◌, some,
  false, ◌==◌, ok, arith, Option-cases, Result-cases, inl, inr, ◌⊎◌, ◌≢◌,
}
use vehicle_intelligence.Policy.Versioned
use vehicle_intelligence.Policy.Alerts.{
  Alert, AlertStatus, opened, acknowledged, resolved, same_status, post_init, Repository, Plan,
  unchanged, write, replace, required, transitioned, plan_from, plan, commit, transition,
}

-- The order of the workflow.
abbrev pub rank : AlertStatus → ℕ
rank opened = 0
rank acknowledged = 1
rank resolved = 2

-- What a write of the service does to the alert that is stored: it takes the workflow one or two
-- steps on, to a target that the actor is recorded for, and counts one revision.
pub record IsStep {E : Type 0} (old new : Alert E) (target : AlertStatus) (actor : Str) (now : ℕ)
    : Type 0 where
  pub on : rank old.status < rank target
  pub status : new.status ≡ target
  pub revision : new.revision ≡ old.revision + 1
  pub updated_at : new.updated_at ≡ now
  pub kept : (new.id ≡ old.id) × (new.source ≡ old.source) × (new.created_at ≡ old.created_at)
  pub acknowledged_by :
      target ≡ acknowledged → (new.acknowledged_by ≡ some actor) × (new.acknowledged_at ≡ some now)
  pub resolved_by :
      target ≡ resolved → (new.resolved_by ≡ some actor) × (new.resolved_at ≡ some now)

post_init_same : {E : Type 0} (a b : Alert E) → post_init a ≡ ok b → a ≡ b
unfolding post_init
post_init_same a b h = ground arith

module _ {E : Type 0} (target : AlertStatus) (actor : Str) (now : ℕ) where
  plan_from-write :
      (current updated : Alert E) (expected : ℕ)
      → plan_from target actor now current ≡ ok (write updated expected)
      → (same_status current.status target ≡ false)
        × (same_status current.status resolved ≡ false)
        × (updated ≡ transitioned current target actor now)
        × (expected ≡ current.revision)
  unfolding plan_from
  plan_from-write current updated expected h =
      elim (Result-cases (post_init (transitioned current target actor now))) [
        | inl (b, fine) ↦
            let same = post_init_same (transitioned current target actor now) b fine in
            (ground arith, ground arith, ground (arith, same), ground arith)
        | inr (x, bad) ↦ absurd (ground arith)
      ]

  transitioned-IsStep :
      (current : Alert E)
      → target ≢ opened
      → same_status current.status target ≡ false
      → same_status current.status resolved ≡ false
      → IsStep current (transitioned current target actor now) target actor now
  unfolding transitioned
  transitioned-IsStep current t other alive = record {
    on = ground arith;
    status = refl;
    revision = refl;
    updated_at = refl;
    kept = (refl, refl, refl);
    acknowledged_by = λ e. ground arith;
    resolved_by = λ e. ground arith;
  }

module _ {E : Type 0} (alert_id actor_id : Str) (target : AlertStatus) (now : ℕ) where
  plan_ok :
      (seen : Repository E) (p : Plan E)
      → plan seen alert_id target actor_id now ≡ ok p
      → (is_empty (strip actor_id) ≡ false)
        × ((current : Alert E) × (get seen.alerts alert_id ≡ some current)
            × (plan_from target (strip actor_id) now current ≡ ok p))
  unfolding plan required
  plan_ok seen p h = elim (Option-cases (get seen.alerts alert_id)) [
    | inl gone ↦ absurd (ground arith)
    | inr (current, found) ↦ (ground arith, (current, found, ground arith))
  ]

  plan_from-unchanged :
      (current alert : Alert E)
      → plan_from target (strip actor_id) now current ≡ ok (unchanged alert)
      → (current.status ≡ target) × (alert ≡ current)
  unfolding plan_from
  plan_from-unchanged current alert h =
      elim (Result-cases (post_init (transitioned current target (strip actor_id) now))) [
        | inl (b, fine) ↦ (ground arith, ground arith)
        | inr (x, bad) ↦ (ground arith, ground arith)
      ]

  commit_write :
      (updated alert : Alert E) (expected : ℕ) (repository repository' : Repository E)
      → commit (write updated expected) repository ≡ ok (alert, repository')
      → (alert ≡ updated)
        × ((replaced : Alert E) × (get repository.alerts updated.id ≡ some replaced)
            × (replaced.revision ≡ expected))
        × ((k : Str)
            → get repository'.alerts k
              ≡ (if updated.id == k then some updated else get repository.alerts k))
  unfolding commit replace Versioned.replace Versioned.has_revision
  commit_write updated alert expected repository repository' h =
      elim (Option-cases (get repository.alerts updated.id)) [
        | inl gone ↦ absurd (ground arith)
        | inr (replaced, found) ↦ (
          ground arith,
          (replaced, found, ground arith),
          λ k. ground (arith, get-put repository.alerts updated.id k updated),
        )
      ]

  -- A transition that returns either found the alert in the target status and changed nothing, or
  -- stored one step of the workflow under the alert's id, in place of exactly the revision that
  -- it had read, and changed no other alert.
  pub transition_ok :
      (seen repository : Repository E) (alert : Alert E) (repository' : Repository E)
      → target ≢ opened
      → transition alert_id target actor_id now seen repository ≡ ok (alert, repository')
      → (is_empty (strip actor_id) ≡ false)
        × ((current : Alert E) × (get seen.alerts alert_id ≡ some current)
            × (((current.status ≡ target) × (alert ≡ current) × (repository' ≡ repository))
                ⊎ (IsStep current alert target (strip actor_id) now
                    × ((replaced : Alert E) × (get repository.alerts current.id ≡ some replaced)
                        × (replaced.revision ≡ current.revision))
                    × ((k : Str)
                        → get repository'.alerts k
                          ≡ (if current.id == k then some alert else get repository.alerts k)))))
  unfolding transition commit
  transition_ok seen repository alert repository' t h =
      elim (Result-cases (plan seen alert_id target actor_id now)) [
        | inl (p, planned) ↦
            let (named, (current, found, from)) = plan_ok seen p planned in
            (named, (current, found, finish p current from (rw (planned, transition) at h)))
        | inr (x, bad) ↦ absurd (ground arith)
      ]
    where
      finish :
          (p : Plan E) (current : Alert E)
          → plan_from target (strip actor_id) now current ≡ ok p
          → commit p repository ≡ ok (alert, repository')
          → ((current.status ≡ target) × (alert ≡ current) × (repository' ≡ repository))
            ⊎ (IsStep current alert target (strip actor_id) now
                × ((replaced : Alert E) × (get repository.alerts current.id ≡ some replaced)
                    × (replaced.revision ≡ current.revision))
                × ((k : Str)
                    → get repository'.alerts k
                      ≡ (if current.id == k then some alert else get repository.alerts k)))
      finish (unchanged a) current from done =
          let (there, same) = plan_from-unchanged current a from in
          inl (there, ground (arith, same), ground arith)
      finish (write updated expected) current from done =
          let (moved, alive, made, based) =
            plan_from-write target (strip actor_id) now current updated expected from in
          let (same, replaced, others) =
            commit_write updated alert expected repository repository' done in
          let step = transitioned-IsStep target (strip actor_id) now current t moved alive in
          let new : alert ≡ transitioned current target (strip actor_id) now = same ∙ made in
          let step' : IsStep current alert target (strip actor_id) now = rw new step in
          let id : updated.id ≡ current.id = ap (λ (a : Alert E). a.id) (sym same) ∙ step'.kept.0 in
          inr (
            step',
            (replaced.0, rw (← id) replaced.1, replaced.2 ∙ based),
            λ k. rw (← id, same) (others k),
          )
