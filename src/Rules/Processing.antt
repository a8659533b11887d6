-- ===== src/Rules/Processing.antt =====
-- VehicleEventPolicyProcessor.process (application/event_policy.py) on the rules that the cache
-- gives. `execute` is the action engine on its state S: it returns or raises, and leaves a state.
pub mod Answers
pub mod Due
use vehicle_intelligence.Prelude.{
  ap, sym, select, not, ◌++◌, ℕ, ◌+◌, ◌≡◌, refl, arith, ◌∙◌, Str, Dict, map, length, All, all, ◌&&◌,
  if◌then◌else◌, Option, none, some, List, [], ◌∷◌, Bool, true, false, Result, ok, err, done,
  Bool-cases, inl, inr,
}
use vehicle_intelligence.Events.{VehicleEvent, PlateEvidence, final_normalized}
use vehicle_intelligence.Policy.Watchlists.{WatchlistEntry, find_active_by_plate, list_type_value}
use vehicle_intelligence.Rules.{Rule, RuleAction}
use vehicle_intelligence.Rules.Evaluator.{matches, context}
use vehicle_intelligence.Rules.Actions.{SplitUrl, validate}
use vehicle_intelligence.Rules.Validated.{evaluate, holds, validated-matches}

pub record EventPolicyResult : Type 0 where
  pub matched_rules : ℕ
  pub actions_succeeded : ℕ
  pub actions_skipped : ℕ

abbrev pub counted : Bool → EventPolicyResult → EventPolicyResult
counted true r = record r { actions_succeeded = r.actions_succeeded + 1 }
counted false r = record r { actions_skipped = r.actions_skipped + 1 }

module _ {M W C X S : Type 0}
    (execute : VehicleEvent C X
      → Rule M
      → RuleAction
      → List (WatchlistEntry W)
      → S
      → Result Bool × S)
    (event : VehicleEvent C X) where
  abbrev pub active_entries :
      Option (PlateEvidence C X) → Dict (WatchlistEntry W) → List (WatchlistEntry W)
  active_entries none entries = []
  active_entries (some plate) entries =
      find_active_by_plate entries (final_normalized plate) event.occurred_at

  -- the values that the evaluator reads of the entries
  abbrev pub types_of : List (WatchlistEntry W) → List Str
  types_of watchlists = map (λ entry. list_type_value entry.list_type) watchlists

  -- the loop over the actions of a rule
  unfoldable pub run_actions :
      Rule M
      → List (WatchlistEntry W)
      → List RuleAction
      → EventPolicyResult
      → S
      → Result EventPolicyResult × S
  run_actions rule watchlists [] counts s = (ok counts, s)
  run_actions rule watchlists (action ∷ rest) counts s =
      let executed = execute event rule action watchlists s in
      elim executed.0 [
        | err e ↦ (err e, executed.1)
        | ok b ↦ run_actions rule watchlists rest (counted b counts) executed.1
      ]

  -- the loop over the rules
  unfoldable pub run_rules :
      List (WatchlistEntry W) → List (Rule M) → EventPolicyResult → S → Result EventPolicyResult × S
  run_rules watchlists [] counts s = (ok counts, s)
  run_rules watchlists (rule ∷ rest) counts s = elim (matches rule event (types_of watchlists)) [
    | err e ↦ (err e, s)
    | ok matched ↦
        if matched
        then (let done =
              run_actions rule watchlists rule.actions
                (record counts { matched_rules = counts.matched_rules + 1 }) s in
            elim done.0 [
              | err e ↦ (err e, done.1)
              | ok counts' ↦ run_rules watchlists rest counts' done.1
            ])
        else run_rules watchlists rest counts s
  ]

  unfoldable pub process :
      Dict (WatchlistEntry W) → List (Rule M) → S → Result EventPolicyResult × S
  process entries rules s =
      run_rules (active_entries event.plate entries) rules
        (record { matched_rules = 0; actions_succeeded = 0; actions_skipped = 0 }) s
