-- ===== src/Policy/Alerts.antt =====
-- Alerts: the record (domain/policy.py), its repository
-- (infrastructure/persistence/policy_memory.py) and its service (application/policies.py).
-- A timestamp is an aware instant, in microseconds.
pub mod Transitions
use vehicle_intelligence.Prelude.{
  ℕ, suc, ◌+◌, Str, ◌==◌, values, select, codes, strip, is_empty, Dict, get, put, contains, member,
  ltb, not, any, all, if◌then◌else◌, Option, none, some, is_some, List, [], ◌∷◌, Bool, true, false,
  ◌&&◌, ◌||◌, Result, ok, err, ◌>>=◌, value_error, policy_conflict, policy_not_found,
}
use vehicle_intelligence.Policy.Versioned.{IsVersioned}
use vehicle_intelligence.Policy.Versioned
use vehicle_intelligence.Persistence.Order.{Key}
use vehicle_intelligence.Persistence.Pages.{Page, list_page}

pub data AlertStatus : Type 0 where
  opened acknowledged resolved : AlertStatus

pub data AlertSeverity : Type 0 where
  info low medium high critical : AlertSeverity

pub record AlertSource : Type 0 where
  pub event_id : Str
  pub execution_id : Str
  pub action_id : Str

pub record RuleSnapshot : Type 0 where
  pub id : Str
  pub name : Str

-- The event's own fields (camera, type, direction, plate and so on) are carried as one value.
pub record Alert (E : Type 0) : Type 0 where
  pub id : Str
  pub source : AlertSource
  pub rule : RuleSnapshot
  pub event : E
  pub severity : AlertSeverity
  pub status : AlertStatus
  pub message : Str
  pub created_at : ℕ
  pub updated_at : ℕ
  pub acknowledged_at : Option ℕ
  pub acknowledged_by : Option Str
  pub resolved_at : Option ℕ
  pub resolved_by : Option Str
  pub schema_version : ℕ
  pub revision : ℕ

abbrev pub same_status : AlertStatus → AlertStatus → Bool
same_status opened opened = true
same_status acknowledged acknowledged = true
same_status resolved resolved = true
same_status _ _ = false

-- `not value`, of an optional text
abbrev pub is_missing : Option Str → Bool
is_missing none = true
is_missing (some s) = is_empty s

-- InMemoryAlertRepository
pub record Repository (E : Type 0) : Type 0 where
  pub alerts : Dict (Alert E)
  pub execution_ids : List Str

-- `_transition` up to its write, on the repository as it is read: the alert to return at once,
-- or the one to write with the revision that it replaces
pub data Plan (E : Type 0) : Type 0 where
  unchanged : Alert E → Plan E
  write : Alert E → ℕ → Plan E

module _ {E : Type 0} where
  -- Alert.__post_init__
  unfoldable pub post_init : Alert E → Result (Alert E)
  post_init a =
      if is_empty (strip a.id) || is_empty (strip a.message)
      then err value_error
      else if same_status a.status acknowledged
          && (is_missing a.acknowledged_by || not (is_some a.acknowledged_at))
      then err value_error
      else if same_status a.status resolved
          && (is_missing a.resolved_by || not (is_some a.resolved_at))
      then err value_error
      else if ltb a.schema_version 1 || ltb a.revision 1
      then err value_error
      else ok a

  abbrev pub alert_fields : IsVersioned (Alert E)
  alert_fields = record { id_of = λ a. a.id; revision_of = λ a. a.revision }

  unfoldable pub create : Repository E → Alert E → Bool × Repository E
  create repository alert =
      if contains repository.alerts alert.id
        || member alert.source.execution_id repository.execution_ids
      then (false, repository)
      else (
        true,
        record {
          alerts = put repository.alerts alert.id alert;
          execution_ids = alert.source.execution_id ∷ repository.execution_ids;
        },
      )

  unfoldable pub replace : Repository E → Alert E → ℕ → Result (Bool × Repository E)
  replace repository alert expected_revision = do
    (done, alerts) ← Versioned.replace alert_fields repository.alerts alert expected_revision
    ok (done, record repository { alerts = alerts })

  -- AlertService.get
  unfoldable pub required : Repository E → Str → Result (Alert E)
  required repository alert_id = elim (get repository.alerts alert_id) [
    | none ↦ err policy_not_found
    | some alert ↦ ok alert
  ]

  -- `replace(current, …)` of `_transition`
  unfoldable pub transitioned : Alert E → AlertStatus → Str → ℕ → Alert E
  transitioned current target actor now = record current {
    status = target;
    acknowledged_at = if same_status target acknowledged then some now else current.acknowledged_at;
    acknowledged_by =
        if same_status target acknowledged then some actor else current.acknowledged_by;
    resolved_at = if same_status target resolved then some now else none;
    resolved_by = if same_status target resolved then some actor else none;
    revision = current.revision + 1;
    updated_at = now;
  }

  unfoldable pub plan_from : AlertStatus → Str → ℕ → Alert E → Result (Plan E)
  plan_from target actor now current =
      if same_status current.status target
      then ok (unchanged current)
      else if same_status current.status resolved
      then err policy_conflict
      else do
        updated ← post_init (transitioned current target actor now)
        ok (write updated current.revision)

  unfoldable pub plan : Repository E → Str → AlertStatus → Str → ℕ → Result (Plan E)
  plan repository alert_id target actor_id now =
      if is_empty (strip actor_id)
      then err value_error
      else do current ← required repository alert_id; plan_from target (strip actor_id) now current

  abbrev pub written : Alert E → Bool × Repository E → Result (Alert E × Repository E)
  written updated (true, repository) = ok (updated, repository)
  written updated (false, repository) = err policy_conflict

  -- the write, on the repository as it is by then
  unfoldable pub commit : Plan E → Repository E → Result (Alert E × Repository E)
  commit (unchanged current) repository = ok (current, repository)
  commit (write updated expected_revision) repository = do
    done ← replace repository updated expected_revision
    written updated done

  -- `_transition`: `seen` is the repository when the alert is read, `repository` when it is written
  unfoldable pub transition :
      Str → AlertStatus → Str → ℕ → Repository E → Repository E → Result (Alert E × Repository E)
  transition alert_id target actor_id now seen repository = do
    p ← plan seen alert_id target actor_id now
    commit p repository

  unfoldable pub acknowledge :
      Str → Str → ℕ → Repository E → Repository E → Result (Alert E × Repository E)
  acknowledge alert_id actor_id now = transition alert_id acknowledged actor_id now

  unfoldable pub resolve :
      Str → Str → ℕ → Repository E → Repository E → Result (Alert E × Repository E)
  resolve alert_id actor_id now = transition alert_id resolved actor_id now

pub record AlertQuery : Type 0 where
  pub limit : ℕ
  pub cursor : Option Key
  pub status : Option AlertStatus
  pub plate : Option Str
  pub camera_id : Option Str
  pub rule_id : Option Str

abbrev pub is_status : Option AlertStatus → AlertStatus → Bool
is_status none status = true
is_status (some wanted) status = same_status wanted status

-- `wanted is None or value == wanted`
abbrev pub is_text : Option Str → Str → Bool
is_text none value = true
is_text (some wanted) value = value == wanted

abbrev pub is_optional_text : Option Str → Option Str → Bool
is_optional_text none value = true
is_optional_text (some wanted) none = false
is_optional_text (some wanted) (some value) = value == wanted

-- what the query reads of the event's fields
module _ {E : Type 0} (plate_of : E → Option Str) (camera_id_of : E → Str) where
  unfoldable pub matches : Alert E → AlertQuery → Bool
  matches alert query =
      is_status query.status alert.status
      && is_optional_text query.plate (plate_of alert.event)
      && is_text query.camera_id (camera_id_of alert.event)
      && is_text query.rule_id alert.rule.id

  unfoldable pub list : Repository E → AlertQuery → Page (Alert E)
  list repository query =
      list_page (λ a. record { time = a.created_at; id = a.id }) query.limit query.cursor
        (select (λ a. matches a query) (values repository.alerts))
