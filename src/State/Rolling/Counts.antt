-- ===== src/State/Rolling/Counts.antt =====
-- The counts of traders in a rolling window: apps/engine/src/state/rolling.rs.
use mathlib.Core.Path.{subst}
use memecoin_bot.Base.{
  ℕ, ◌+◌, ◌-◌, ◌<◌, ◌≡◌, sym, refl, String, Bool, true, [], ◌∷◌, arith, if◌then◌else◌, ◌==◌,
  eq_string, eq_string→eq, eq_string_self, eq_string_apart, length, Bool-cases, inl, inr,
}
use memecoin_bot.State.Rolling.{Counts, count_of, bump, drop_one}

abbrev pub one_if : Bool → ℕ
one_if b = if b then 1 else 0

-- Each key once, and no count of 0.
abbrev pub IsCounts : Counts → Type 0
IsCounts [] = Unit
IsCounts ((k, n) ∷ m) = (0 < n) × (count_of k m ≡ 0) × IsCounts m

pub count_of-bump :
    (s t : String) (m : Counts) → count_of s (bump t m) ≡ count_of s m + one_if (eq_string t s)
count_of-bump s t [] = ground arith
count_of-bump s t ((k, n) ∷ m) = elim (Bool-cases (eq_string k t)) [
  | inl e ↦ let same : k ≡ t = eq_string→eq k t e in rw (e, same) (ground arith)
  | inr e ↦ rw e (ground (arith, count_of-bump s t m, eq_string_apart k t s e))
]

pub bump-IsCounts : (t : String) (m : Counts) → IsCounts m → IsCounts (bump t m)
bump-IsCounts t [] h = (omega arith, refl, tt)
bump-IsCounts t ((k, n) ∷ m) (p, z, h) = elim (Bool-cases (eq_string k t)) [
  | inl e ↦ rw e (omega arith, z, h)
  | inr e ↦ rw e (
    p,
    ground (arith, count_of-bump k t m, eq_string_apart k t k e (eq_string_self k)),
    bump-IsCounts t m h,
  )
]

pub count_of-drop_one :
    (s t : String) (m : Counts)
    → IsCounts m
    → count_of s (drop_one t m) ≡ count_of s m - one_if (eq_string t s)
count_of-drop_one s t [] h = ground arith
count_of-drop_one s t ((k, n) ∷ m) (p, z, h) = elim (Bool-cases (eq_string k t)) [
  | inl e ↦
      let same : k ≡ t = eq_string→eq k t e in
      let zero : eq_string k s ≡ true → count_of s m ≡ 0 =
        λ f. subst (λ x. count_of x m ≡ 0) (eq_string→eq k s f) z in
      rw (e, sym same) (ground (arith, zero))
  | inr e ↦ rw e (ground (arith, count_of-drop_one s t m, eq_string_apart k t s e))
]

pub drop_one-IsCounts : (t : String) (m : Counts) → IsCounts m → IsCounts (drop_one t m)
drop_one-IsCounts t [] h = tt
drop_one-IsCounts t ((k, n) ∷ m) (p, z, h) = elim (Bool-cases (eq_string k t)) [
  | inl e ↦
      rw e (elim (Bool-cases (n - 1 == 0)) [ inl f ↦ rw f h | inr f ↦ rw f (ground arith, z, h) ])
  | inr e ↦ rw e (
    p,
    ground (arith, count_of-drop_one k t m h, eq_string_apart k t k e (eq_string_self k)),
    drop_one-IsCounts t m h,
  )
]

pub length-bump :
    (t : String) (m : Counts)
    → IsCounts m
    → length (bump t m) ≡ length m + one_if (count_of t m == 0)
length-bump t [] h = ground arith
length-bump t ((k, n) ∷ m) (p, z, h) = elim (Bool-cases (eq_string k t)) [
  | inl e ↦ rw e (ground arith)
  | inr e ↦ rw e (ground (arith, length-bump t m h))
]

pub length-drop_one :
    (t : String) (m : Counts)
    → IsCounts m
    → length (drop_one t m) + one_if (count_of t m == 1) ≡ length m
length-drop_one t [] h = ground arith
length-drop_one t ((k, n) ∷ m) (p, z, h) = elim (Bool-cases (eq_string k t)) [
  | inl e ↦ rw e (ground arith)
  | inr e ↦ rw e (ground (arith, length-drop_one t m h))
]
