-- ===== src/Persistence/Order.antt =====
-- Python's order on texts and on pairs of a timestamp and an id.
use vehicle_intelligence.Prelude.{
  ℕ, ◌≡◌, refl, Str, eqb, ltb, if◌then◌else◌, Bool, true, false, [], ◌∷◌, arith,
}

unfoldable pub str_lt : Str → Str → Bool
str_lt [] [] = false
str_lt [] (y ∷ ys) = true
str_lt (x ∷ xs) [] = false
str_lt (x ∷ xs) (y ∷ ys) =
    let tails = str_lt xs ys in if ltb x y then true else if eqb x y then tails else false

-- the key of a listing
pub record Key : Type 0 where
  pub time : ℕ
  pub id : Str

-- (a.time, a.id) < (b.time, b.id)
unfoldable pub key_lt : Key → Key → Bool
key_lt a b =
    if ltb a.time b.time then true else if eqb a.time b.time then str_lt a.id b.id else false

str_lt_irrefl : (s : Str) → str_lt s s ≡ false
unfolding str_lt
str_lt_irrefl [] = refl
str_lt_irrefl (x ∷ s) = ground (arith, str_lt_irrefl s)

str_lt_trans : (s t u : Str) → str_lt s t ≡ true → str_lt t u ≡ true → str_lt s u ≡ true
unfolding str_lt
str_lt_trans [] [] u h k = ground arith
str_lt_trans [] (y ∷ t) [] h k = ground arith
str_lt_trans [] (y ∷ t) (z ∷ u) h k = refl
str_lt_trans (x ∷ s) [] u h k = ground arith
str_lt_trans (x ∷ s) (y ∷ t) [] h k = ground arith
str_lt_trans (x ∷ s) (y ∷ t) (z ∷ u) h k = ground (arith, str_lt_trans s t u)

str_lt_total : (s t : Str) → str_lt s t ≡ false → str_lt t s ≡ false → s ≡ t
unfolding str_lt
str_lt_total [] [] h k = refl
str_lt_total [] (y ∷ t) h k = ground arith
str_lt_total (x ∷ s) [] h k = ground arith
str_lt_total (x ∷ s) (y ∷ t) h k = ground (arith, str_lt_total s t)

pub key_lt_irrefl : (a : Key) → key_lt a a ≡ false
unfolding key_lt
key_lt_irrefl a = ground (arith, str_lt_irrefl a.id)

pub key_lt_trans : (a b c : Key) → key_lt a b ≡ true → key_lt b c ≡ true → key_lt a c ≡ true
unfolding key_lt
key_lt_trans a b c h k = ground (arith, str_lt_trans a.id b.id c.id)

pub key_lt_total : (a b : Key) → key_lt a b ≡ false → key_lt b a ≡ false → a.id ≡ b.id
unfolding key_lt
key_lt_total a b h k = ground (arith, str_lt_total a.id b.id)

pub key_lt_asym : (a b : Key) → key_lt a b ≡ true → key_lt b a ≡ false
key_lt_asym a b h = ground (arith, key_lt_trans a b a, key_lt_irrefl a)
