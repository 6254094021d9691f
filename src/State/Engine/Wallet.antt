-- ===== src/State/Engine/Wallet.antt =====
-- What a snapshot counts: `counts_as_of` and `wallet_snapshot` of apps/engine/src/state/engine.rs.
use memecoin_bot.Base.{
  ℕ, ◌+◌, ◌*◌, ◌/◌, String, not, Option, none, some, List, [], ◌∷◌, max, min, ltb, if◌then◌else◌,
  eq_string, length, get_elem?, filter_by, sat_add, u64_max, is_empty,
}
use memecoin_bot.Base.Int.{ℤ, ◌-ℤ◌, leb_ℤ}
use memecoin_bot.State.Rolling.{TradeTick, Counts}
use memecoin_bot.State.Rolling.Report.{sort_amounts}
use memecoin_bot.State.Snapshot.{WalletSnapshot}
use memecoin_bot.State.Engine.{TokenState, insert_text, contains_text, ratio_bps, ratio_bps_u64}

-- Buys, sales, buyers and sellers up to an instant.
pub record CountsAsOf : Type 0 where
  pub buys : ℕ
  pub sells : ℕ
  pub buyers : List String
  pub sellers : List String

abbrev pub count_as_of : ℤ → CountsAsOf → TradeTick → CountsAsOf
count_as_of at_ms c t =
    if not (leb_ℤ t.time_ms at_ms)
    then c
    else if t.is_buy
    then record c { buys = c.buys + 1; buyers = insert_text t.trader c.buyers }
    else record c { sells = c.sells + 1; sellers = insert_text t.trader c.sellers }

abbrev pub counts_over : ℤ → CountsAsOf → List TradeTick → CountsAsOf
counts_over at_ms c [] = c
counts_over at_ms c (t ∷ ts) = counts_over at_ms (count_as_of at_ms c t) ts

abbrev pub no_counts : CountsAsOf
no_counts = record { buys = 0; sells = 0; buyers = []; sellers = [] }

unfoldable pub counts_as_of : TokenState → ℤ → ℕ × ℕ × ℕ × ℕ
counts_as_of st at_ms =
    if is_empty st.trade_log
    then (
      st.buy_count_total,
      st.sell_count_total,
      length st.unique_buyers,
      length st.unique_sellers,
    )
    else let c = counts_over at_ms no_counts st.trade_log in
      (c.buys, c.sells, length c.buyers, length c.sellers)

abbrev values : Counts → List ℕ
values [] = []
values ((k, n) ∷ m) = n ∷ values m

-- `*entry(k).or_insert(0) += v`.
abbrev pub add_count : String → ℕ → Counts → Counts
add_count k v [] = (k, v) ∷ []
add_count k v ((j, n) ∷ m) = if eq_string j k then (j, n + v) ∷ m else (j, n) ∷ add_count k v m

abbrev add_counts : Counts → Counts → Counts
add_counts acc [] = acc
add_counts acc ((k, v) ∷ m) = add_counts (add_count k v acc) m

abbrev greatest : List ℕ → Option ℕ
greatest [] = none
greatest (x ∷ xs) = elim (greatest xs) [ none ↦ some x | some y ↦ some (max x y) ]

abbrev or_zero : Option ℕ → ℕ
or_zero none = 0
or_zero (some n) = n

-- `union(...).count()`: the first set, and what the second adds.
abbrev union_count : List String → List String → ℕ
union_count xs ys = length xs + length (filter_by (λ y. not (contains_text y xs)) ys)

abbrev age_since : ℤ → Option ℤ → Option ℤ
age_since at none = none
age_since at (some t) = some (at -ℤ t)

abbrev share_of : Option ℕ → ℕ → Option ℕ
share_of none total = none
share_of (some v) total = ratio_bps v total

unfoldable pub wallet_snapshot : TokenState → ℤ → WalletSnapshot
wallet_snapshot st at =
    let buy_counts = sort_amounts (values st.buyer_trade_counts) in
    let trade_counts = add_counts st.buyer_trade_counts st.seller_trade_counts in
    let total_trades = min (st.buy_count_total + st.sell_count_total) u64_max in
    record {
      unique_traders_total = some (union_count st.unique_buyers st.unique_sellers);
      repeat_buyer_count = some (length (filter_by (ltb 1) (values st.buyer_trade_counts)));
      mean_buys_per_buyer_milli =
          if is_empty st.unique_buyers
          then some 0
          else some (min (st.buy_count_total * 1_000) u64_max / length st.unique_buyers);
      median_buys_per_buyer =
          if is_empty buy_counts then some 0 else get_elem? buy_counts (length buy_counts / 2);
      last_buy_age_ms = age_since at st.last_buy_at;
      last_sell_age_ms = age_since at st.last_sell_at;
      last_trade_age_ms = age_since at st.last_trade_at;
      creator_last_sell_age_ms = age_since at st.creator_last_sell_at;
      top_trader_trade_share_bps =
          ratio_bps_u64 (or_zero (greatest (values trade_counts))) total_trades;
      top_trader_volume_share_bps =
          share_of (greatest (values st.trader_quote_volume))
            (sat_add st.buy_quote_volume_raw_total st.sell_quote_volume_raw_total);
    }
