-- ===== src/Rules/Processing/Due.antt =====
-- The processing of an event, as the engine on the list of the actions that are due.
use vehicle_intelligence.Prelude.{
  ap, sym, select, ◌++◌, ◌+◌, ◌≡◌, refl, arith, ◌∙◌, Str, Dict, map, length, All, all, ◌&&◌, List,
  [], ◌∷◌, Bool, Result, ok, err, done, Bool-cases, inl, inr,
}
use vehicle_intelligence.Events.{VehicleEvent}
use vehicle_intelligence.Policy.Watchlists.{WatchlistEntry}
use vehicle_intelligence.Rules.{Rule, RuleAction}
use vehicle_intelligence.Rules.Evaluator.{context}
use vehicle_intelligence.Rules.Actions.{SplitUrl, validate}
use vehicle_intelligence.Rules.Validated.{evaluate, holds, validated-matches}
use vehicle_intelligence.Rules.Processing.{
  EventPolicyResult, counted, active_entries, types_of, run_actions, run_rules, process,
}
use vehicle_intelligence.Rules.Processing.Answers.{
  chain, single, finish, no_counts, plus_zero, finish-chain, finish_one_more, chain_assoc,
  chain_same, prefixed_nothing, counted_total,
}

module _ {M W C X S : Type 0}
    (execute : VehicleEvent C X
      → Rule M
      → RuleAction
      → List (WatchlistEntry W)
      → S
      → Result Bool × S)
    (event : VehicleEvent C X) where
  -- An independent description: the actions that are due, of the enabled rules whose conditions
  -- hold, in the order of the rules and of the actions of each.
  abbrev pub applies : List Str → Rule M → Bool
  applies types rule =
      rule.enabled && all (λ c. holds (evaluate (context event types) c)) rule.conditions

  abbrev pub matching : List Str → List (Rule M) → List (Rule M)
  matching types rules = select (applies types) rules

  abbrev pub due_actions : List (Rule M) → List (Rule M × RuleAction)
  due_actions [] = []
  due_actions (rule ∷ rules) = map (λ action. (rule, action)) rule.actions ++ due_actions rules

  -- The engine on a list of actions, up to the first that raises: its answers, and its state.
  abbrev pub execute_each :
      List (WatchlistEntry W) → List (Rule M × RuleAction) → S → Result (List Bool) × S
  execute_each watchlists [] s = (ok [], s)
  execute_each watchlists ((rule, action) ∷ due) s =
      chain (single (execute event rule action watchlists s)) (λ t. execute_each watchlists due t)

  execute_each-append :
      (watchlists : List (WatchlistEntry W)) (xs ys : List (Rule M × RuleAction)) (s : S)
      → execute_each watchlists (xs ++ ys) s
        ≡ chain (execute_each watchlists xs s) (λ t. execute_each watchlists ys t)
  execute_each-append watchlists [] ys s = sym (prefixed_nothing (execute_each watchlists ys s))
  execute_each-append watchlists ((rule, action) ∷ xs) ys s =
      chain_same (single (execute event rule action watchlists s)) _ _
        (λ t. execute_each-append watchlists xs ys t)
      ∙ sym (
          chain_assoc (single (execute event rule action watchlists s))
            (λ t. execute_each watchlists xs t) (λ t. execute_each watchlists ys t))

  run_actions_lem :
      (rule : Rule M) (watchlists : List (WatchlistEntry W)) (actions : List RuleAction)
      (counts : EventPolicyResult) (s : S)
      → run_actions execute event rule watchlists actions counts s
        ≡ finish counts 0 (execute_each watchlists (map (λ action. (rule, action)) actions) s)
  unfolding run_actions
  run_actions_lem rule watchlists [] counts s =
      rw
        (
          plus_zero counts.matched_rules,
          plus_zero counts.actions_succeeded,
          plus_zero counts.actions_skipped,
        )
        refl
  run_actions_lem rule watchlists (action ∷ rest) counts s =
      answered (execute event rule action watchlists s)
        (λ b t. run_actions_lem rule watchlists rest (counted b counts) t)
    where
      answered :
          (x : Result Bool × S)
          → ((b : Bool) (t : S)
              → run_actions execute event rule watchlists rest (counted b counts) t
                ≡ finish
                    (counted b counts)
                    0
                    (execute_each watchlists (map (λ action. (rule, action)) rest) t))
          → elim x.0 [
            | err e ↦ (err e, x.1)
            | ok b ↦ run_actions execute event rule watchlists rest (counted b counts) x.1
          ]
            ≡ finish counts 0 (
                chain
                  (single x)
                  (λ t. execute_each watchlists (map (λ action. (rule, action)) rest) t))
      answered (err e, t) later = refl
      answered (ok b, t) later =
          later b t
          ∙ ap (λ c. finish c 0 (execute_each watchlists (map (λ action. (rule, action)) rest) t))
              (counted_total b counts)
          ∙ finish-chain counts 0 0 (ok (b ∷ []), t)
              (λ c u. finish c 0 (execute_each watchlists (map (λ action. (rule, action)) rest) u))
              (λ u. execute_each watchlists (map (λ action. (rule, action)) rest) u) (λ c u. refl)

  run_rules_lem :
      (urlsplit : Str → Result SplitUrl) (watchlists : List (WatchlistEntry W))
      (rules : List (Rule M)) (counts : EventPolicyResult) (s : S)
      → All (λ rule. validate urlsplit rule ≡ ok done) rules
      → run_rules execute event watchlists rules counts s
        ≡ finish counts (length (matching (types_of execute event watchlists) rules)) (
            execute_each watchlists
              (due_actions (matching (types_of execute event watchlists) rules))
              s)
  unfolding run_rules
  run_rules_lem urlsplit watchlists [] counts s h =
      rw
        (
          plus_zero counts.matched_rules,
          plus_zero counts.actions_succeeded,
          plus_zero counts.actions_skipped,
        )
        refl
  run_rules_lem urlsplit watchlists (rule ∷ rest) counts s h =
      elim (Bool-cases (applies (types_of execute event watchlists) rule)) [
        | inr passed ↦
            rw
              (
                validated-matches urlsplit rule event (types_of execute event watchlists) h.0,
                passed,
                run_rules,
              )
              (run_rules_lem urlsplit watchlists rest counts s h.1)
        | inl due ↦
            rw
              (
                validated-matches urlsplit rule event (types_of execute event watchlists) h.0,
                due,
                run_rules,
              )
              (one_rule
                (run_actions_lem rule watchlists rule.actions
                  (record counts { matched_rules = counts.matched_rules + 1 }) s)
                (λ c t. run_rules_lem urlsplit watchlists rest c t h.1))
      ]
    where
      chosen : List (Rule M)
      chosen = matching (types_of execute event watchlists) rest

      actions : List (Rule M × RuleAction)
      actions = map (λ action. (rule, action)) rule.actions

      one_rule :
          {x : Result EventPolicyResult × S}
          → x
            ≡ finish
                (record counts { matched_rules = counts.matched_rules + 1 })
                0
                (execute_each watchlists actions s)
          → ((c : EventPolicyResult) (t : S)
              → run_rules execute event watchlists rest c t
                ≡ finish c (length chosen) (execute_each watchlists (due_actions chosen) t))
          → elim x.0 [
            | err e ↦ (err e, x.1)
            | ok counts' ↦ run_rules execute event watchlists rest counts' x.1
          ]
            ≡ finish counts
                (length (rule ∷ chosen))
                (execute_each watchlists (actions ++ due_actions chosen) s)
      one_rule {x} first later =
          ap
            (λ y. elim y.0 [
              | err e ↦ (err e, y.1)
              | ok counts' ↦ run_rules execute event watchlists rest counts' y.1
            ])
            first
          ∙ finish-chain (record counts { matched_rules = counts.matched_rules + 1 }) 0
              (length chosen) (execute_each watchlists actions s)
              (λ c t. run_rules execute event watchlists rest c t)
              (λ t. execute_each watchlists (due_actions chosen) t) later
          ∙ finish_one_more counts (length (rule ∷ chosen)) (length chosen) _ (omega arith)
          ∙ ap (finish counts (length (rule ∷ chosen)))
              (sym (execute_each-append watchlists actions (due_actions chosen) s))

  -- If each rule was validated, the processing of an event runs the engine on the actions of the
  -- enabled rules whose conditions hold, in the order of the rules and of the actions of each, up to
  -- the first that raises, whose exception it raises. It leaves the state that the engine leaves,
  -- and if none raises, it counts those rules, the answers True as succeeded and False as skipped.
  pub process_lem :
      (urlsplit : Str → Result SplitUrl) (entries : Dict (WatchlistEntry W)) (rules : List (Rule M))
      (s : S)
      → All (λ rule. validate urlsplit rule ≡ ok done) rules
      → let watchlists = active_entries execute event event.plate entries in
        let due = matching (types_of execute event watchlists) rules in
        process execute event entries rules s
        ≡ finish no_counts (length due) (execute_each watchlists (due_actions due) s)
  unfolding process
  process_lem urlsplit entries rules s h =
      run_rules_lem urlsplit (active_entries execute event event.plate entries) rules no_counts s h
