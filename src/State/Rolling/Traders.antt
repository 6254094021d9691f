-- ===== src/State/Rolling/Traders.antt =====
-- Sums over the ticks of a window, and how many traders they have: apps/engine/src/state/rolling.rs.
use mathlib.Core.Path.{subst}
use memecoin_bot.Base.{
  ℕ, ◌+◌, ◌≡◌, refl, String, Bool, true, ◌&&◌, List, [], ◌∷◌, ◌++◌, arith, ◌==◌, eq_string,
  eq_string→eq, eq_string_sym,
}
use memecoin_bot.State.Rolling.{TradeTick}
use memecoin_bot.State.Rolling.Counts.{one_if}

abbrev pub sum_of : (TradeTick → ℕ) → List TradeTick → ℕ
sum_of f [] = 0
sum_of f (e ∷ es) = f e + sum_of f es

pub sum_of-append :
    (f : TradeTick → ℕ) (xs ys : List TradeTick) → sum_of f (xs ++ ys) ≡ sum_of f xs + sum_of f ys
sum_of-append f [] ys = omega arith
sum_of-append f (x ∷ xs) ys = omega (arith, sum_of-append f xs ys)

-- On one side of the market: `acts e` where the tick `e` is on it.
module _ (acts : TradeTick → Bool) where
  abbrev pub made_by : String → TradeTick → ℕ
  made_by t e = one_if (acts e && eq_string e.trader t)

  -- A trader counts at the last tick that is its own.
  abbrev pub traders : List TradeTick → ℕ
  traders [] = 0
  traders (e ∷ es) = traders es + one_if (acts e && (sum_of (made_by e.trader) es == 0))

  pub traders-append :
      (es : List TradeTick) (e : TradeTick)
      → traders (es ++ e ∷ []) ≡ traders es + one_if (acts e && (sum_of (made_by e.trader) es == 0))
  traders-append [] e = omega arith
  traders-append (x ∷ es) e =
      let ih = traders-append es e in
      let more = sum_of-append (made_by x.trader) es (e ∷ []) in
      let turn = eq_string_sym x.trader e.trader in
      let same : eq_string x.trader e.trader ≡ true
          → sum_of (made_by e.trader) es ≡ sum_of (made_by x.trader) es =
        λ h.
          subst (λ t. sum_of (made_by t) es ≡ sum_of (made_by x.trader) es)
            (eq_string→eq x.trader e.trader h) refl in
      ground (arith, same)
