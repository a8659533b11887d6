-- ===== src/Rules/History.antt =====
-- Sequences of calls of RuleService, and the rules that they leave for the evaluation of events.
use vehicle_intelligence.Prelude.{
  ℕ, ◌≡◌, sym, ap, ◌∙◌, arith, Str, Dict, get, List, [], ◌∷◌, all, ◌&&◌, Result, ok, err, Done,
  done, is_done, some, Result-cases, inl, inr,
}
use vehicle_intelligence.Events.{VehicleEvent}
use vehicle_intelligence.Policy.Services.{
  after_write, after_delete, AllStored, create_built-AllStored, update_built-AllStored,
  delete-AllStored,
}
use vehicle_intelligence.Rules.{Rule}
use vehicle_intelligence.Rules.Evaluator.{matches, context}
use vehicle_intelligence.Rules.Actions.{SplitUrl, validate}
use vehicle_intelligence.Rules.Validated.{evaluate, holds, validated-matches}
use vehicle_intelligence.Rules.Service.{
  RuleCreate, RuleUpdate, rule_fields, validated, new_rule, updated_rule, create_rule, update_rule,
  delete_rule,
}

-- A call with the new id and the time of the service; an update also has the rules as it read them.
pub data Operation (M : Type 0) : Type 0 where
  create_call : RuleCreate M → Str → ℕ → Operation M
  update_call : Dict (Rule M) → Str → RuleUpdate M → ℕ → Operation M
  delete_call : Str → Operation M

module _ {M : Type 0} (urlsplit : Str → Result SplitUrl) where
  -- the rules after a call, also if it raises
  unfoldable pub apply : Operation M → Dict (Rule M) → Dict (Rule M)
  apply (create_call command fresh_id now) rules =
      after_write rule_fields rules (create_rule urlsplit rules command fresh_id now)
  apply (update_call seen rule_id command now) rules =
      after_write rule_fields rules (update_rule urlsplit seen rules rule_id command now)
  apply (delete_call rule_id) rules = after_delete rule_fields rules (delete_rule rules rule_id)

  unfoldable pub run : List (Operation M) → Dict (Rule M) → Dict (Rule M)
  run [] rules = rules
  run (o ∷ os) rules = run os (apply o rules)

  IsValidated : Rule M → Type 0
  IsValidated rule = validate urlsplit rule ≡ ok done

  validated-IsValidated :
      (built : Result (Rule M)) (rule : Rule M)
      → validated urlsplit built ≡ ok rule
      → IsValidated rule
  unfolding IsValidated
  validated-IsValidated (err e) rule h = ground arith
  validated-IsValidated (ok r) rule h = elim (Result-cases (validate urlsplit r)) [
    | inr (e, raised) ↦ ground (arith, h, raised)
    | inl (d, passed) ↦
        let same : r ≡ rule = returned d passed in
        ap (validate urlsplit) (sym same) ∙ passed ∙ ap ok (is_done d)
  ]
    where
      returned : (d : Done) → validate urlsplit r ≡ ok d → r ≡ rule
      returned d passed = ground (arith, h, passed)

  apply-AllStored :
      (o : Operation M) (rules : Dict (Rule M))
      → AllStored rule_fields IsValidated rules
      → AllStored rule_fields IsValidated (apply o rules)
  unfolding apply create_rule update_rule delete_rule new_rule updated_rule
  apply-AllStored (create_call command fresh_id now) rules h =
      create_built-AllStored rule_fields IsValidated rules (new_rule urlsplit command fresh_id now)
        h (λ rule built. validated-IsValidated _ rule built)
  apply-AllStored (update_call seen rule_id command now) rules h =
      update_built-AllStored rule_fields IsValidated seen rules rule_id command.revision
        (updated_rule urlsplit command now) h
        (λ current rule built. validated-IsValidated _ rule built)
  apply-AllStored (delete_call rule_id) rules h =
      delete-AllStored rule_fields IsValidated rules rule_id h

  run-AllStored :
      (os : List (Operation M)) (rules : Dict (Rule M))
      → AllStored rule_fields IsValidated rules
      → AllStored rule_fields IsValidated (run os rules)
  unfolding run
  run-AllStored [] rules h = h
  run-AllStored (o ∷ os) rules h = run-AllStored os (apply o rules) (apply-AllStored o rules h)

  -- Whatever calls of the service made the rules, also calls that raise and updates that read the
  -- rules at an earlier time: the evaluation of a stored rule raises nothing, for each event and all
  -- active watchlists. It answers whether the rule is enabled and each of its conditions holds.
  pub stored-matches :
      {C X : Type 0} (os : List (Operation M)) (rule_id : Str) (rule : Rule M)
      (event : VehicleEvent C X) (watchlists : List Str)
      → get (run os []) rule_id ≡ some rule
      → matches rule event watchlists
        ≡ ok (
            rule.enabled
            && all (λ c. holds (evaluate (context event watchlists) c)) rule.conditions)
  unfolding IsValidated
  stored-matches os rule_id rule event watchlists found =
      validated-matches urlsplit rule event watchlists
        (run-AllStored os [] (λ k r nothing. ground arith) rule_id rule found)
