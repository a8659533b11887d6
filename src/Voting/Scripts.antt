-- ===== src/Voting/Scripts.antt =====
-- Edit scripts, and that edit_distance is the least cost of one.
use vehicle_intelligence.Prelude.{
  ℕ, ◌+◌, ◌≤◌, ◌≡◌, refl, sym, ap, ◌∙◌, arith, min, Str, eqb, leb, length, List, [], ◌∷◌,
  Bool-cases, inl, inr, ◌⊎◌,
}
use mathlib.Core.Path.{subst}
use vehicle_intelligence.Voting.{differs}
use vehicle_intelligence.Voting.Table.{lev, lev_row}

pub data Edit : Type 0 where
  keep : ℕ → Edit
  change : ℕ → ℕ → Edit
  insert : ℕ → Edit
  delete : ℕ → Edit

-- what a script starts from, what it makes, and what it costs
abbrev pub source : List Edit → Str
source [] = []
source (keep c ∷ script) = c ∷ source script
source (change c d ∷ script) = c ∷ source script
source (insert d ∷ script) = source script
source (delete c ∷ script) = c ∷ source script

abbrev pub target : List Edit → Str
target [] = []
target (keep c ∷ script) = c ∷ target script
target (change c d ∷ script) = d ∷ target script
target (insert d ∷ script) = d ∷ target script
target (delete c ∷ script) = target script

abbrev pub cost : List Edit → ℕ
cost [] = 0
cost (keep c ∷ script) = cost script
cost (change c d ∷ script) = cost script + 1
cost (insert d ∷ script) = cost script + 1
cost (delete c ∷ script) = cost script + 1

-- A script that makes one text from another at a cost.
pub record Script (left right : Str) (n : ℕ) : Type 0 where
  pub script : List Edit
  pub from_left : source script ≡ left
  pub to_right : target script ≡ right
  pub costs : cost script ≡ n

min-cases : (a b : ℕ) → (min a b ≡ a) ⊎ (min a b ≡ b)
min-cases a b = elim (Bool-cases (leb a b)) [
  | inl le ↦ inl (ground (arith, le))
  | inr gt ↦ inr (ground (arith, gt))
]

-- one more edit in front
inserted : (left right : Str) (d n : ℕ) → Script left right n → Script left (d ∷ right) (n + 1)
inserted left right d n s = record {
  script = insert d ∷ s.script;
  from_left = s.from_left;
  to_right = ap (λ t. d ∷ t) s.to_right;
  costs = ap (λ k. k + 1) s.costs;
}

deleted : (left right : Str) (c n : ℕ) → Script left right n → Script (c ∷ left) right (n + 1)
deleted left right c n s = record {
  script = delete c ∷ s.script;
  from_left = ap (λ t. c ∷ t) s.from_left;
  to_right = s.to_right;
  costs = ap (λ k. k + 1) s.costs;
}

paired :
    (left right : Str) (c d n : ℕ)
    → Script left right n
    → Script (c ∷ left) (d ∷ right) (n + differs c d)
paired left right c d n s = elim (Bool-cases (eqb c d)) [
  | inl same ↦
      let is : c ≡ d = ground (arith, same) in
      record {
        script = keep c ∷ s.script;
        from_left = ap (λ t. c ∷ t) s.from_left;
        to_right = ap (λ t. c ∷ t) s.to_right ∙ ap (λ e. e ∷ right) is;
        costs = s.costs ∙ ground (arith, same);
      }
  | inr other ↦ record {
    script = change c d ∷ s.script;
    from_left = ap (λ t. c ∷ t) s.from_left;
    to_right = ap (λ t. d ∷ t) s.to_right;
    costs = ap (λ k. k + 1) s.costs ∙ ground (arith, other);
  }
]

-- the script for a cell of the table, from those of its three neighbours
cell-Script :
    (left right : Str) (a b e : ℕ)
    → Script left right a
    → Script left right b
    → Script left right e
    → Script left right (min (min a b) e)
cell-Script left right a b e s t u = elim (min-cases (min a b) e) [
  | inr third ↦ subst (Script left right) (sym third) u
  | inl among ↦ elim (min-cases a b) [
    | inl first ↦ subst (Script left right) (sym (among ∙ first)) s
    | inr second ↦ subst (Script left right) (sym (among ∙ second)) t
  ]
]

all_inserted : (right : Str) → Script [] right (length right)
all_inserted [] = record { script = []; from_left = refl; to_right = refl; costs = refl }
all_inserted (d ∷ right) =
    subst (Script [] (d ∷ right)) (omega arith)
      (inserted [] right d (length right) (all_inserted right))

all_deleted : (left : Str) → Script left [] (length left)
all_deleted [] = record { script = []; from_left = refl; to_right = refl; costs = refl }
all_deleted (c ∷ left) =
    subst (Script (c ∷ left) []) (omega arith) (deleted left [] c (length left) (all_deleted left))

row-Script :
    (c : ℕ) (left : Str)
    → ((right : Str) → Script left right (lev left right))
    → (right : Str) → Script (c ∷ left) right (lev (c ∷ left) right)
unfolding lev lev_row
row-Script c left shorter [] = all_deleted (c ∷ left)
row-Script c left shorter (d ∷ right) =
    cell-Script (c ∷ left) (d ∷ right) (lev (c ∷ left) right + 1) (lev left (d ∷ right) + 1)
      (lev left right + differs c d)
      (inserted (c ∷ left) right d (lev (c ∷ left) right) (row-Script c left shorter right))
      (deleted left (d ∷ right) c (lev left (d ∷ right)) (shorter (d ∷ right)))
      (paired left right c d (lev left right) (shorter right))

pub lev-Script : (left right : Str) → Script left right (lev left right)
unfolding lev
lev-Script [] right = all_inserted right
lev-Script (c ∷ left) right = row-Script c left (lev-Script left) right

lev-insert : (left : Str) (d : ℕ) (right : Str) → lev left (d ∷ right) ≤ lev left right + 1
unfolding lev lev_row
lev-insert [] d right = omega arith
lev-insert (c ∷ left) d right = omega arith

lev-delete : (c : ℕ) (left right : Str) → lev (c ∷ left) right ≤ lev left right + 1
unfolding lev lev_row
lev-delete c [] [] = omega arith
lev-delete c (b ∷ left) [] = omega arith
lev-delete c left (d ∷ right) = omega arith

lev-pair : (c d : ℕ) (left right : Str) → lev (c ∷ left) (d ∷ right) ≤ lev left right + differs c d
unfolding lev lev_row
lev-pair c d left right = omega arith

pub lev-cost : (script : List Edit) → lev (source script) (target script) ≤ cost script
unfolding lev
lev-cost [] = omega arith
lev-cost (keep c ∷ script) =
    ground (arith, lev-pair c c (source script) (target script), lev-cost script)
lev-cost (change c d ∷ script) =
    ground (arith, lev-pair c d (source script) (target script), lev-cost script)
lev-cost (insert d ∷ script) =
    omega (arith, lev-insert (source script) d (target script), lev-cost script)
lev-cost (delete c ∷ script) =
    omega (arith, lev-delete c (source script) (target script), lev-cost script)
