-- ===== src/Tests/VotingTests.antt =====
-- edit_distance at concrete texts.
use vehicle_intelligence.Prelude.{◌≤◌, ◌≡◌, refl, codes, List, [], ◌∷◌}
use vehicle_intelligence.Voting.{edit_distance, distance, rows, row}
use vehicle_intelligence.Voting.Scripts.{Edit, keep, insert, delete, Script}
use vehicle_intelligence.Voting.Distance.{edit_distance-least}

-- 51H1 from 5IH, and back
one_change_one_insertion : edit_distance (codes "5IH") (codes "51H1") ≡ 2
unfolding edit_distance distance rows row
one_change_one_insertion = refl

abbrev longer_script : List Edit
longer_script = keep 53 ∷ delete 73 ∷ insert 49 ∷ keep 72 ∷ insert 49 ∷ []

edit_distance-least_example :
    Script (codes "5IH") (codes "51H1") (edit_distance (codes "5IH") (codes "51H1"))
    × (edit_distance (codes "5IH") (codes "51H1") ≤ 3)
edit_distance-least_example =
    edit_distance-least (codes "5IH") (codes "51H1") 3
      (record { script = longer_script; from_left = refl; to_right = refl; costs = refl })
