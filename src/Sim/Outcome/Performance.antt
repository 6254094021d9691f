-- ===== src/Sim/Outcome/Performance.antt =====
-- `policy_performance` of apps/engine/src/sim/outcome.rs: the figures of a run, from its orders and
-- positions. Of the record of the run it copies the policy's label and whether it counts for research.
pub mod Consistent
use native.Mathlib.Nat.{mul-le-mul, le_refl, le-div_iff_mul-le, div-mul-le_self, div-le_of_le-mul}
use mathlib.Core.Path.{subst}
use memecoin_bot.Base.{
  ℕ, zero, suc, ◌+◌, ◌-◌, ◌*◌, ◌/◌, ◌%◌, ◌^◌, ◌≤◌, ◌<◌, ◌≡◌, refl, String, Bool, true, false, not,
  Option, none, some, List, [], ◌∷◌, arith, ltb, leb, ◌==◌, if◌then◌else◌, filter_by, length, min,
  u32_max, u64_max, sat_mul, Bool-cases, inl, inr,
}
use memecoin_bot.Base.Int.{
  ℤ, pos, negsuc, ◌+ℤ◌, ltb_ℤ, leb_ℤ, max_ℤ, min_ℤ, div_ℤ, pos_part, neg_part, ◌≤ℤ◌, +ℤ_parts,
}
use memecoin_bot.Sim.Types.{PositionStatus, forced_end_of_data, is_open, is_fill}
use memecoin_bot.Sim.Position.Book.{SimulatedPosition}
use memecoin_bot.Sim.Position.Returns.{return_bps}
use memecoin_bot.Sim.Harness.{SimulatedOrder}
use memecoin_bot.Sim.Outcome.Missed.{is_buy}

pub record PolicyPerformance : Type 0 where
  pub policy_id : String
  pub n_orders : ℕ
  pub filled_entries : ℕ
  pub fill_rate_bps : ℕ
  pub trades_closed : ℕ
  pub forced_end : ℕ
  pub net_pnl_quote : ℕ
  pub win_rate_bps : ℕ
  pub expectancy_bps : Option ℤ
  pub profit_factor_milli : Option ℕ
  pub largest_winner_bps : Option ℤ
  pub largest_loser_bps : Option ℤ
  pub trades_gt_2x : ℕ
  pub trades_gt_5x : ℕ
  pub trades_gt_10x : ℕ
  pub sample_insufficient : Bool
  pub research_valid : Bool

-- The variables of the loop over the closed positions.
pub record Figures : Type 0 where
  pub wins : ℕ
  pub gt2 : ℕ
  pub gt5 : ℕ
  pub gt10 : ℕ
  pub best : Option ℤ
  pub worst : Option ℤ
  pub sum_bps : ℤ
  pub gross_win : ℕ
  pub gross_loss : ℕ

abbrev pub no_figures : Figures
no_figures = record {
  wins = 0;
  gt2 = 0;
  gt5 = 0;
  gt10 = 0;
  best = none;
  worst = none;
  sum_bps = pos 0;
  gross_win = 0;
  gross_loss = 0;
}

abbrev pub bps_or_0 : Option ℤ → ℤ
bps_or_0 none = pos 0
bps_or_0 (some r) = r

abbrev pub best_of : Option ℤ → ℤ → ℤ
best_of none r = r
best_of (some b) r = max_ℤ b r

abbrev pub worst_of : Option ℤ → ℤ → ℤ
worst_of none r = r
worst_of (some b) r = min_ℤ b r

abbrev pub count_if : Bool → ℕ → ℕ
count_if b n = if b then n + 1 else n

-- `+=` of `U256` wraps around.
abbrev pub wrap_add : ℕ → ℕ → ℕ
wrap_add a b = (a + b) % 2 ^ 256

unfoldable pub count_return : ℤ → ℕ → ℕ → Figures → Figures
count_return r rec cost f = record {
  wins = count_if (ltb_ℤ (pos 0) r) f.wins;
  gt2 = count_if (leb_ℤ (pos 10_000) r) f.gt2;
  gt5 = count_if (leb_ℤ (pos 40_000) r) f.gt5;
  gt10 = count_if (leb_ℤ (pos 90_000) r) f.gt10;
  best = some (best_of f.best r);
  worst = some (worst_of f.worst r);
  sum_bps = f.sum_bps +ℤ r;
  gross_win = if leb cost rec then wrap_add f.gross_win (rec - cost) else f.gross_win;
  gross_loss = if leb cost rec then f.gross_loss else wrap_add f.gross_loss (cost - rec);
}

abbrev pub count_closed : Figures → List SimulatedPosition → Figures
count_closed f [] = f
count_closed f (p ∷ ps) =
    count_closed
      (count_return (bps_or_0 (return_bps p.quote_cost p.realized_quote)) p.realized_quote
        p.quote_cost f)
      ps

abbrev pub is_buy_order : SimulatedOrder → Bool
is_buy_order o = is_buy o.side

abbrev pub is_forced : PositionStatus → Bool
is_forced forced_end_of_data = true
is_forced _ = false

-- `u32::try_from(n).unwrap_or(d)`.
abbrev pub u32_or : ℕ → ℕ → ℕ
u32_or d n = if leb n u32_max then n else d

-- `part.saturating_mul(10_000) / whole` of `usize`, 0 where the whole is 0.
unfoldable pub rate_bps : ℕ → ℕ → ℕ
rate_bps part whole = if whole == 0 then 0 else u32_or 0 (min (part * 10_000) u64_max / whole)

unfoldable pub profit_factor : ℕ → ℕ → Option ℕ
profit_factor gross_win gross_loss =
    if gross_loss == 0 then none else some (u32_or u32_max (sat_mul gross_win 1_000 / gross_loss))

unfoldable pub expectancy : ℤ → ℕ → Option ℤ
expectancy sum_bps n = if n == 0 then none else some (div_ℤ sum_bps n)

abbrev pub entries_of : List SimulatedOrder → List SimulatedOrder
entries_of orders = filter_by is_buy_order orders

abbrev pub filled_of : List SimulatedOrder → List SimulatedOrder
filled_of orders = filter_by (λ o. is_fill o.status) (entries_of orders)

abbrev pub closed_of : List SimulatedPosition → List SimulatedPosition
closed_of positions = filter_by (λ p. not (is_open p.status)) positions

unfoldable pub policy_performance :
    String → Bool → List SimulatedOrder → List SimulatedPosition → PolicyPerformance
policy_performance policy_id research_valid orders positions =
    let entries = length (entries_of orders) in
    let filled = length (filled_of orders) in
    let n = length (closed_of positions) in
    let f = count_closed no_figures (closed_of positions) in
    record {
      policy_id = policy_id;
      n_orders = entries;
      filled_entries = filled;
      fill_rate_bps = rate_bps filled entries;
      trades_closed = n;
      forced_end = length (filter_by (λ p. is_forced p.status) positions);
      net_pnl_quote = if leb f.gross_loss f.gross_win then f.gross_win - f.gross_loss else 0;
      win_rate_bps = rate_bps f.wins n;
      expectancy_bps = expectancy f.sum_bps n;
      profit_factor_milli = profit_factor f.gross_win f.gross_loss;
      largest_winner_bps = f.best;
      largest_loser_bps = f.worst;
      trades_gt_2x = f.gt2;
      trades_gt_5x = f.gt5;
      trades_gt_10x = f.gt10;
      sample_insufficient = ltb n 30;
      research_valid = research_valid;
    }
