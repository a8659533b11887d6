-- ===== src/Tests/StoreTests.antt =====
-- Witnesses for the event repository, pages, rules and the topology.
use vehicle_intelligence.Prelude.{
  length, ℕ, ◌+◌, Bool, ◌≡◌, ◌≢◌, refl, get, arith, eq_refl, value_error, ◌&&◌, all, codes, Str,
  ◌==◌, strip, none, some, [], ◌∷◌, true, false, ok, err, Result, done, List,
}
use vehicle_intelligence.Persistence.Order.{Key}
use vehicle_intelligence.Persistence.Sorting.{newest_first, HasIds}
use vehicle_intelligence.Persistence.Pages.{walk, walk_complete}
use vehicle_intelligence.Events.{VehicleEvent, enter, vehicle_enter, needs_review}
use vehicle_intelligence.Events.Identifiers.{IsIndexed, IsExtended}
use vehicle_intelligence.Events.History.{
  Operation, save_event, read_event, write_review, assign, reassign, run, empty, run-IsIndexed,
}
use vehicle_intelligence.Rules.{RuleAction, rule_post_init, Rule, contains, text}
use vehicle_intelligence.Policy.Executions.{log}
use vehicle_intelligence.Rules.Evaluator.{
  matches, context, validate_condition, validate_conditions, operator_fits,
}
use vehicle_intelligence.Rules.Actions.{SplitUrl, validate, validate_action, validate_actions}
use vehicle_intelligence.Rules.Validated.{evaluate, holds, validated-matches}
use vehicle_intelligence.Rules.Service.{create_rule, new_rule}
use vehicle_intelligence.Rules.History.{stored-matches}
use vehicle_intelligence.Policy.Watchlists.{WatchlistEntry, find_active_by_plate}
use vehicle_intelligence.Rules.Processing.{process}
use vehicle_intelligence.Rules.Processing.Answers.{no_counts, finish}
use vehicle_intelligence.Rules.Processing.Due.{matching, due_actions, execute_each, process_lem}
use vehicle_intelligence.Rules.Cache.{Cache, active_rules, GivesUsable, active_rules-GivesUsable}
use vehicle_intelligence.Rules.History as RuleCalls
use vehicle_intelligence.Policy.Services.{create_built}
use vehicle_intelligence.Policy.Versioned.{create}
use vehicle_intelligence.Topology.{TopologyCreate}
use vehicle_intelligence.Topology.Edges.{IsTopology}
use vehicle_intelligence.Topology.History
use vehicle_intelligence.Topology.History.{run-IsTopology}

abbrev three_keys : List Key
three_keys =
    record { time = 5; id = codes "a" }
    ∷ record { time = 9; id = codes "b" }
    ∷ record { time = 5; id = codes "c" }
    ∷ []

apart : (s t : Str) → (s == t) ≡ false → s ≢ t
apart s t h same = ground (arith, h, same, eq_refl t)

three_keys-HasIds : HasIds (λ k. k) three_keys
unfolding ◌==◌
three_keys-HasIds = (
  (apart (codes "b") (codes "a") refl, (apart (codes "c") (codes "a") refl, tt)),
  ((apart (codes "c") (codes "b") refl, tt), (tt, tt)),
)

walk_complete_example : walk (λ k. k) 4 2 none three_keys ≡ newest_first (λ k. k) three_keys
walk_complete_example = walk_complete (λ k. k) 2 three_keys (omega arith) three_keys-HasIds

abbrev entry_event : VehicleEvent ℕ ℕ
entry_event = record {
  id = codes "e1";
  schema_version = 1;
  camera = record { id = codes "gate"; name = codes "Gate"; zone = none };
  track_id = codes "t1";
  event_type = vehicle_enter;
  occurred_at = 10;
  created_at = 11;
  direction = enter;
  status = needs_review;
  vehicle = record { type = codes "car"; confidence = 1; color = none };
  plate = some (record {
    raw = codes "30A12345";
    normalized = codes "30A12345";
    confidence = 1;
    observation_count = 3;
    corrections = 0;
    review = none;
    partial = false;
  });
  media = record {
    snapshot_key = none;
    vehicle_crop_key = none;
    plate_crop_key = none;
    clip_key = none;
  };
  ai = 0;
  vehicle_id = none;
  metadata = 0;
}

abbrev event_calls : List (Operation ℕ ℕ)
event_calls =
    save_event entry_event
    ∷ save_event (record entry_event { id = codes "e2" })
    ∷ read_event (codes "e1")
    ∷ assign (codes "e1") (codes "v1")
    ∷ write_review 0 0 (record {
      normalized = codes "30A12346";
      revision = 1;
      reviewed_at = 20;
      reviewed_by = codes "u";
      reviewer_display_name = codes "User";
      note = none;
    })
    ∷ reassign (codes "e1" ∷ codes "e1" ∷ []) (codes "v1") (codes "v2")
    ∷ []

run-IsIndexed_example :
    IsIndexed
      (run event_calls empty).repository.events
      (run event_calls empty).repository.semantic_keys
    × IsExtended
        (run event_calls empty).repository.events
        (run event_calls (run event_calls empty)).repository.events
run-IsIndexed_example = run-IsIndexed event_calls event_calls

abbrev watch_rule : Rule ℕ
watch_rule = record {
  id = codes "r1";
  name = codes "Blacklisted";
  enabled = true;
  priority = 1;
  conditions =
      record { field = codes "watchlist"; operator = contains; value = text (codes "BLACKLIST") }
      ∷ [];
  actions = record { id = codes "a1"; type = log; parameters = [] } ∷ [];
  created_at = 1;
  updated_at = 1;
  metadata = 0;
  schema_version = 1;
  revision = 1;
}

abbrev no_urls : Str → Result SplitUrl
no_urls url = err value_error

watch_rule-valid : validate no_urls watch_rule ≡ ok done
unfolding ◌==◌ validate validate_conditions validate_condition operator_fits validate_actions
    validate_action
watch_rule-valid = refl

validated-matches_example :
    matches watch_rule entry_event (codes "BLACKLIST" ∷ [])
    ≡ ok (
        true
        && all
            (λ c. holds (evaluate (context entry_event (codes "BLACKLIST" ∷ [])) c))
            watch_rule.conditions)
validated-matches_example =
    validated-matches no_urls watch_rule entry_event (codes "BLACKLIST" ∷ []) watch_rule-valid

abbrev road : TopologyCreate ℕ
road = record {
  id = codes "north";
  from_camera_id = codes "gate";
  to_camera_id = codes "yard";
  minimum_travel = 5;
  maximum_travel = 50;
  typical_travel = 20;
  enabled = true;
  metadata = 0;
}

abbrev topology_calls : List (History.Operation ℕ)
topology_calls =
    History.create_call road 1
    ∷ History.create_call (record road { id = codes "again" }) 2
    ∷ History.delete_call (codes "south")
    ∷ []

run-IsTopology_example : IsTopology (History.run topology_calls [])
run-IsTopology_example = run-IsTopology topology_calls

abbrev rule_calls : List (RuleCalls.Operation ℕ)
rule_calls =
    RuleCalls.create_call
      (record {
        name = codes "Blacklisted";
        enabled = true;
        priority = 1;
        conditions = watch_rule.conditions;
        actions = watch_rule.actions;
        metadata = 0;
        id = some (codes "r1");
      })
      (codes "fresh") 1
    ∷ []

stored_rule : get (RuleCalls.run no_urls rule_calls []) (codes "r1") ≡ some watch_rule
unfolding ◌==◌ strip RuleCalls.run RuleCalls.apply create_rule create_built create new_rule
    rule_post_init validate validate_conditions validate_condition operator_fits validate_actions
    validate_action
stored_rule = refl

stored-matches_example :
    matches watch_rule entry_event (codes "VIP" ∷ [])
    ≡ ok (
        true
        && all
            (λ c. holds (evaluate (context entry_event (codes "VIP" ∷ [])) c))
            watch_rule.conditions)
stored-matches_example =
    stored-matches no_urls rule_calls (codes "r1") watch_rule entry_event (codes "VIP" ∷ [])
      stored_rule

abbrev warm_cache : Cache ℕ
warm_cache = record { cached_rules = some (watch_rule ∷ []); rules_expire_at = 50 }

active_rules-GivesUsable_example :
    GivesUsable no_urls 5 20 (active_rules no_urls 5 20 warm_cache (watch_rule ∷ []) 60)
active_rules-GivesUsable_example =
    active_rules-GivesUsable no_urls 5 20 warm_cache (watch_rule ∷ []) 60
      (omega arith, (watch_rule-valid, tt))

abbrev steady_engine :
    VehicleEvent ℕ ℕ → Rule ℕ → RuleAction → List (WatchlistEntry ℕ) → ℕ → Result Bool × ℕ
steady_engine event rule action watchlists calls = (ok true, calls + 1)

process_lem_example :
    process steady_engine entry_event [] (watch_rule ∷ []) 0
    ≡ finish no_counts (length (matching steady_engine entry_event [] (watch_rule ∷ []))) (
        execute_each steady_engine entry_event []
          (due_actions steady_engine entry_event
            (matching steady_engine entry_event [] (watch_rule ∷ [])))
          0)
unfolding find_active_by_plate
process_lem_example =
    process_lem steady_engine entry_event no_urls [] (watch_rule ∷ []) 0 (watch_rule-valid, tt)
