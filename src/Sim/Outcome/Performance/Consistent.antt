-- ===== src/Sim/Outcome/Performance/Consistent.antt =====
-- The figures of `policy_performance` of apps/engine/src/sim/outcome.rs agree.
use native.Mathlib.Nat.{mul-le-mul, le-div_iff_mul-le, div-le_of_le-mul}
use mathlib.Core.Path.{subst}
use memecoin_bot.Base.{
  ℕ, suc, ◌+◌, ◌*◌, ◌/◌, ◌≤◌, ◌<◌, ◌≡◌, refl, String, Bool, false, Option, none, some, List, [],
  ◌∷◌, arith, ◌==◌, filter_by, length, min, u64_max, Bool-cases, inl, inr,
}
use memecoin_bot.Base.Int.{
  ℤ, pos, negsuc, ◌+ℤ◌, max_ℤ, min_ℤ, div_ℤ, pos_part, neg_part, ◌≤ℤ◌, +ℤ_parts,
}
use memecoin_bot.Sim.Types.{is_fill}
use memecoin_bot.Sim.Position.Book.{SimulatedPosition}
use memecoin_bot.Sim.Position.Returns.{return_bps}
use memecoin_bot.Sim.Harness.{SimulatedOrder}
use memecoin_bot.Sim.Outcome.Performance.{
  PolicyPerformance, Figures, no_figures, bps_or_0, best_of, worst_of, count_return, count_closed,
  is_forced, rate_bps, expectancy, entries_of, filled_of, closed_of, policy_performance,
}

-- The sum of `n` returns lies between `n` times the worst and `n` times the best.
abbrev Between : ℕ → ℤ → Option ℤ → Option ℤ → Type 0
Between n sum none none = (n ≡ 0) × (sum ≡ pos 0)
Between n sum (some w) (some b) =
    (0 < n)
    × (w ≤ℤ b)
    × (n * pos_part w + neg_part sum ≤ pos_part sum + n * neg_part w)
    × (pos_part sum + n * neg_part b ≤ n * pos_part b + neg_part sum)
Between n sum (some w) none = ⊥
Between n sum none (some b) = ⊥

record IsCounted (n : ℕ) (f : Figures) : Type 0 where
  rare : f.gt10 ≤ f.gt5
  less : f.gt5 ≤ f.gt2
  some_win : f.gt2 ≤ f.wins
  all_closed : f.wins ≤ n
  between : Between n f.sum_bps f.worst f.best

times_mono :
    (n : ℕ) (a b : ℤ) → a ≤ℤ b → n * pos_part a + n * neg_part b ≤ n * pos_part b + n * neg_part a
times_mono n a b h = grind (arith, mul-le-mul)

suc_times : (n x : ℕ) → suc n * x ≡ n * x + x
suc_times n x = grind arith

worst_below : (w r : ℤ) → (min_ℤ w r ≤ℤ w) × (min_ℤ w r ≤ℤ r)
worst_below w r = ground arith

best_above : (b r : ℤ) → (b ≤ℤ max_ℤ b r) × (r ≤ℤ max_ℤ b r)
best_above b r = ground arith

Between-add :
    (n : ℕ) (sum r : ℤ) (w b : Option ℤ)
    → Between n sum w b
    → Between (suc n) (sum +ℤ r) (some (worst_of w r)) (some (best_of b r))
Between-add n sum r none none h = rw (h.0, h.1) (omega (arith, +ℤ_parts (pos 0) r))
Between-add n sum r (some w) (some b) h =
    let m = min_ℤ w r in
    let t = max_ℤ b r in
    let (mw, mr) = worst_below w r in
    let (bt, rt) = best_above b r in
    let fewer = times_mono n m w mw in
    let more = times_mono n b t bt in
    (
      omega arith,
      omega (arith, h.1),
      rw (suc_times n (pos_part m), suc_times n (neg_part m))
          (omega (arith, h.2, fewer, mr, +ℤ_parts sum r)),
      rw (suc_times n (pos_part t), suc_times n (neg_part t))
          (omega (arith, h.3, more, rt, +ℤ_parts sum r)),
    )
Between-add n sum r (some w) none h = elim h [ ]
Between-add n sum r none (some b) h = elim h [ ]

count_return-IsCounted :
    (n rec cost : ℕ) (r : ℤ) (f : Figures)
    → IsCounted n f
    → IsCounted (suc n) (count_return r rec cost f)
unfolding count_return
count_return-IsCounted n rec cost r f h = record {
  rare = ground (arith, h.rare);
  less = ground (arith, h.less);
  some_win = ground (arith, h.some_win);
  all_closed = ground (arith, h.all_closed);
  between = Between-add n f.sum_bps r f.worst f.best h.between;
}

count_closed-IsCounted :
    (n : ℕ) (f : Figures) (ps : List SimulatedPosition)
    → IsCounted n f
    → IsCounted (n + length ps) (count_closed f ps)
count_closed-IsCounted n f [] h = subst (λ n. IsCounted n f) (omega arith) h
count_closed-IsCounted n f (p ∷ ps) h =
    let r = bps_or_0 (return_bps p.quote_cost p.realized_quote) in
    let g = count_return r p.realized_quote p.quote_cost f in
    subst (λ n. IsCounted n (count_closed g ps)) (omega arith)
      (count_closed-IsCounted (suc n) g ps
        (count_return-IsCounted n p.realized_quote p.quote_cost r f h))

no_figures-IsCounted : IsCounted 0 no_figures
no_figures-IsCounted = record {
  rare = omega arith;
  less = omega arith;
  some_win = omega arith;
  all_closed = omega arith;
  between = (refl, refl);
}

none_of : (n : ℕ) → 0 / n ≡ 0
none_of n = let le : 0 / n ≤ 0 = div-le_of_le-mul n (omega arith) in omega arith

some_of : (n v : ℕ) → 0 < n → 0 < n * suc v
some_of n v h = grind arith

div_ℤ-pos : (n s : ℕ) → div_ℤ (pos s) n ≡ pos (s / n)
div_ℤ-pos n s = ground (arith, none_of n)

div_ℤ-negsuc :
    (n s : ℕ) → (pos_part (div_ℤ (negsuc s) n) ≡ 0) × (neg_part (div_ℤ (negsuc s) n) ≡ suc s / n)
div_ℤ-negsuc n s = ground (arith, none_of n)

-- The average of `n` returns, rounded towards 0, lies between the worst and the best.
average_above :
    (n : ℕ) (w sum : ℤ)
    → 0 < n
    → n * pos_part w + neg_part sum ≤ pos_part sum + n * neg_part w
    → w ≤ℤ div_ℤ sum n
average_above n (pos v) (pos s) positive h =
    rw (div_ℤ-pos n s)
      (omega (arith, (le-div_iff_mul-le {k = n} {x = v} {y = s} positive).1 (omega arith)))
average_above n (pos v) (negsuc s) positive h = absurd (omega arith)
average_above n (negsuc v) (pos s) positive h = rw (div_ℤ-pos n s) (omega arith)
average_above n (negsuc v) (negsuc s) positive h =
    let le : suc s / n ≤ suc v = div-le_of_le-mul n (omega arith) in omega (arith, div_ℤ-negsuc n s)

average_below :
    (n : ℕ) (b sum : ℤ)
    → 0 < n
    → pos_part sum + n * neg_part b ≤ n * pos_part b + neg_part sum
    → div_ℤ sum n ≤ℤ b
average_below n (pos v) (pos s) positive h =
    rw (div_ℤ-pos n s) (omega (arith, div-le_of_le-mul n {m = s} {n = v} (omega arith)))
average_below n (pos v) (negsuc s) positive h = omega (arith, div_ℤ-negsuc n s)
average_below n (negsuc v) (pos s) positive h = absurd (omega (arith, some_of n v positive))
average_below n (negsuc v) (negsuc s) positive h =
    let le : suc v ≤ suc s / n = (le-div_iff_mul-le positive).1 (omega arith) in
    omega (arith, div_ℤ-negsuc n s)

-- Known exactly where the figures are of some trades.
abbrev pub IsBetween : ℕ → Option ℤ → Option ℤ → Option ℤ → Type 0
IsBetween n none none none = n ≡ 0
IsBetween n (some w) (some e) (some b) = (0 < n) × (w ≤ℤ e) × (e ≤ℤ b)
IsBetween n _ _ _ = ⊥

expectancy-IsBetween :
    (n : ℕ) (sum : ℤ) (w b : Option ℤ) → Between n sum w b → IsBetween n w (expectancy sum n) b
unfolding expectancy
expectancy-IsBetween n sum none none h = rw (h.0) (omega arith)
expectancy-IsBetween n sum (some w) (some b) h =
    let nonzero : (n == 0) ≡ false = ground (arith, h.0) in
    rw nonzero (h.0, average_above n w sum h.0 h.2, average_below n b sum h.0 h.3)
expectancy-IsBetween n sum (some w) none h = elim h [ ]
expectancy-IsBetween n sum none (some b) h = elim h [ ]

rate_bps-le : (part whole : ℕ) → part ≤ whole → rate_bps part whole ≤ 10_000
unfolding rate_bps
rate_bps-le part whole le =
    let scaled : min (part * 10_000) u64_max ≤ whole * 10_000 = omega arith in
    ground (arith, div-le_of_le-mul whole scaled)

length-filter_by {ℓ} :
    {A : Type ℓ} (keep : A → Bool) (xs : List A) → length (filter_by keep xs) ≤ length xs
length-filter_by keep [] = omega arith
length-filter_by keep (x ∷ xs) = elim (Bool-cases (keep x)) [
  | inl e ↦ rw e (omega (arith, length-filter_by keep xs))
  | inr e ↦ rw e (omega (arith, length-filter_by keep xs))
]

pub record IsConsistent (f : PolicyPerformance) : Type 0 where
  pub filled : f.filled_entries ≤ f.n_orders
  pub fill_rate : f.fill_rate_bps ≤ 10_000
  pub rare : f.trades_gt_10x ≤ f.trades_gt_5x
  pub less : f.trades_gt_5x ≤ f.trades_gt_2x
  pub closed : f.trades_gt_2x ≤ f.trades_closed
  pub forced : f.forced_end ≤ f.trades_closed
  pub win_rate : f.win_rate_bps ≤ 10_000
  pub average : IsBetween f.trades_closed f.largest_loser_bps f.expectancy_bps f.largest_winner_bps

forced-closed :
    (ps : List SimulatedPosition)
    → length (filter_by (λ p. is_forced p.status) ps) ≤ length (closed_of ps)
forced-closed [] = omega arith
forced-closed (p ∷ ps) = ground (arith, forced-closed ps)

-- The figures of a run agree: the filled entries are among the orders to buy; the trades of at least ten
-- times are among those of five, those among the ones of two, and those and the forced ends are no more
-- than the closed trades; both rates are at most 10000; the average return lies between the worst and the
-- best, and all three are known exactly where a trade was closed.
pub policy_performance-IsConsistent :
    (policy_id : String) (research_valid : Bool) (orders : List SimulatedOrder)
    (positions : List SimulatedPosition)
    → IsConsistent (policy_performance policy_id research_valid orders positions)
unfolding policy_performance
policy_performance-IsConsistent policy_id research_valid orders positions =
    let ps = closed_of positions in
    let q = count_closed-IsCounted 0 no_figures ps no_figures-IsCounted in
    let f = count_closed no_figures ps in
    let c : IsCounted (length ps) f = subst (λ n. IsCounted n f) (omega arith) q in
    let le = length-filter_by (λ (o : SimulatedOrder). is_fill o.status) (entries_of orders) in
    record {
      filled = le;
      fill_rate = rate_bps-le (length (filled_of orders)) (length (entries_of orders)) le;
      rare = c.rare;
      less = c.less;
      closed = omega (arith, c.some_win, c.all_closed);
      forced = forced-closed positions;
      win_rate = rate_bps-le f.wins (length ps) c.all_closed;
      average = expectancy-IsBetween (length ps) f.sum_bps f.worst f.best c.between;
    }
