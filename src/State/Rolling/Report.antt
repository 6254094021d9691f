-- ===== src/State/Rolling/Report.antt =====
-- The snapshots of the rolling windows of apps/engine/src/state/rolling.rs, with the helpers of amt.rs.
use memecoin_bot.Base.{
  ℕ, ◌+◌, ◌-◌, ◌/◌, ◌%◌, Bool, true, false, not, ◌&&◌, Option, none, some, List, [], ◌∷◌, map, leb,
  ◌==◌, if◌then◌else◌, length, get_elem?, filter_by, sat_add, min, max,
}
use memecoin_bot.Base.Int.{ℤ, eq_ℤ, ◌-ℤ◌, leb_ℤ, ltb_ℤ}
use memecoin_bot.State.Rolling.{TradeTick, Counts, bump, Window, RollingWindows, window_ms}

abbrev pub insert_sorted : ℕ → List ℕ → List ℕ
insert_sorted n [] = n ∷ []
insert_sorted n (x ∷ xs) = if leb n x then n ∷ x ∷ xs else x ∷ insert_sorted n xs

abbrev pub sort_amounts : List ℕ → List ℕ
sort_amounts [] = []
sort_amounts (x ∷ xs) = insert_sorted x (sort_amounts xs)

abbrev pub middle : Option ℕ → Option ℕ → Option ℕ
middle (some a) (some b) = some (a + (b - a) / 2)
middle (some a) none = none
middle none b = none

-- `median_raw` of state/amt.rs.
unfoldable pub median_raw : List ℕ → Option ℕ
median_raw values =
    let sorted = sort_amounts values in
    let mid = length values / 2 in
    if length values % 2 == 1
    then get_elem? sorted mid
    else if length values == 0
    then none
    else middle (get_elem? sorted (mid - 1)) (get_elem? sorted mid)

abbrev pub with_least : Option ℕ → TradeTick → Option ℕ
with_least none e = some e.quote_raw
with_least (some m) e = some (min m e.quote_raw)

abbrev pub with_greatest : Option ℕ → TradeTick → Option ℕ
with_greatest none e = some e.quote_raw
with_greatest (some m) e = some (max m e.quote_raw)

abbrev pub fold_ticks : (Option ℕ → TradeTick → Option ℕ) → Option ℕ → List TradeTick → Option ℕ
fold_ticks f acc [] = acc
fold_ticks f acc (e ∷ es) = fold_ticks f (f acc e) es

-- The fields of `RollingWindowSnapshot`; the net flow is its sign and its size.
pub record RollingWindowSnapshot : Type 0 where
  pub duration_ms : ℤ
  pub buy_count : ℕ
  pub sell_count : ℕ
  pub unique_buyers : ℕ
  pub unique_sellers : ℕ
  pub buy_quote_volume_raw : ℕ
  pub sell_quote_volume_raw : ℕ
  pub buy_token_volume_raw : ℕ
  pub sell_token_volume_raw : ℕ
  pub net_quote_flow : Bool × ℕ
  pub new_unique_buyers : ℕ
  pub new_unique_sellers : ℕ
  pub creator_buy_volume : ℕ
  pub creator_sell_volume : ℕ
  pub trade_size_min : Option ℕ
  pub trade_size_max : Option ℕ
  pub trade_size_median : Option ℕ

-- `net_signed` of state/amt.rs: whether it is negative, and the amount.
unfoldable pub net_signed : ℕ → ℕ → Bool × ℕ
net_signed b s = if leb s b then (false, b - s) else (true, s - b)

unfoldable pub snapshot : Window → RollingWindowSnapshot
snapshot w = record {
  duration_ms = w.duration_ms;
  buy_count = w.buy_count;
  sell_count = w.sell_count;
  unique_buyers = length w.buyers;
  unique_sellers = length w.sellers;
  buy_quote_volume_raw = w.buy_quote;
  sell_quote_volume_raw = w.sell_quote;
  buy_token_volume_raw = w.buy_token;
  sell_token_volume_raw = w.sell_token;
  net_quote_flow = net_signed w.buy_quote w.sell_quote;
  new_unique_buyers = w.new_buyers;
  new_unique_sellers = w.new_sellers;
  creator_buy_volume = w.creator_buy;
  creator_sell_volume = w.creator_sell;
  trade_size_min = fold_ticks with_least none w.events;
  trade_size_max = fold_ticks with_greatest none w.events;
  trade_size_median = median_raw (map (λ (e : TradeTick). e.quote_raw) w.events);
}

-- `RollingWindowSnapshot::empty`.
abbrev pub empty_window : ℤ → RollingWindowSnapshot
empty_window duration_ms = record {
  duration_ms = duration_ms;
  buy_count = 0;
  sell_count = 0;
  unique_buyers = 0;
  unique_sellers = 0;
  buy_quote_volume_raw = 0;
  sell_quote_volume_raw = 0;
  buy_token_volume_raw = 0;
  sell_token_volume_raw = 0;
  net_quote_flow = (false, 0);
  new_unique_buyers = 0;
  new_unique_sellers = 0;
  creator_buy_volume = 0;
  creator_sell_volume = 0;
  trade_size_min = none;
  trade_size_max = none;
  trade_size_median = none;
}

unfoldable pub snapshots : RollingWindows → List RollingWindowSnapshot
snapshots r = if r.enabled then map snapshot r.windows else map empty_window window_ms

abbrev pub find_window : ℤ → List Window → RollingWindowSnapshot
find_window duration_ms [] = empty_window duration_ms
find_window duration_ms (w ∷ ws) =
    if eq_ℤ w.duration_ms duration_ms then snapshot w else find_window duration_ms ws

unfoldable pub by_ms : RollingWindows → ℤ → RollingWindowSnapshot
by_ms r duration_ms = find_window duration_ms r.windows

-- The variables of the loop of `snapshot_as_of`.
pub record Sums : Type 0 where
  pub buy_count : ℕ
  pub sell_count : ℕ
  pub buyers : Counts
  pub sellers : Counts
  pub buy_quote : ℕ
  pub sell_quote : ℕ
  pub buy_token : ℕ
  pub sell_token : ℕ
  pub creator_buy : ℕ
  pub creator_sell : ℕ

abbrev pub no_sums : Sums
no_sums = record {
  buy_count = 0;
  sell_count = 0;
  buyers = [];
  sellers = [];
  buy_quote = 0;
  sell_quote = 0;
  buy_token = 0;
  sell_token = 0;
  creator_buy = 0;
  creator_sell = 0;
}

unfoldable pub count_tick : Sums → TradeTick → Sums
count_tick s e =
    if e.is_buy
    then record s {
      buy_count = s.buy_count + 1;
      buyers = bump e.trader s.buyers;
      buy_quote = sat_add s.buy_quote e.quote_raw;
      buy_token = sat_add s.buy_token e.token_raw;
      creator_buy = if e.is_creator then sat_add s.creator_buy e.quote_raw else s.creator_buy;
    }
    else record s {
      sell_count = s.sell_count + 1;
      sellers = bump e.trader s.sellers;
      sell_quote = sat_add s.sell_quote e.quote_raw;
      sell_token = sat_add s.sell_token e.token_raw;
      creator_sell = if e.is_creator then sat_add s.creator_sell e.quote_raw else s.creator_sell;
    }

abbrev pub count_ticks : Sums → List TradeTick → Sums
count_ticks s [] = s
count_ticks s (e ∷ es) = count_ticks (count_tick s e) es

abbrev pub in_window : ℤ → ℤ → TradeTick → Bool
in_window duration_ms at e = leb_ℤ e.time_ms at && ltb_ℤ (at -ℤ e.time_ms) duration_ms

abbrev pub is_first_buy : TradeTick → Bool
is_first_buy e = e.is_buy && e.first_buy

abbrev pub is_first_sell : TradeTick → Bool
is_first_sell e = not e.is_buy && e.first_sell

-- The snapshot of the events that the filter leaves.
unfoldable pub snapshot_of : ℤ → List TradeTick → RollingWindowSnapshot
snapshot_of duration_ms events =
    let s = count_ticks no_sums events in
    record {
      duration_ms = duration_ms;
      buy_count = s.buy_count;
      sell_count = s.sell_count;
      unique_buyers = length s.buyers;
      unique_sellers = length s.sellers;
      buy_quote_volume_raw = s.buy_quote;
      sell_quote_volume_raw = s.sell_quote;
      buy_token_volume_raw = s.buy_token;
      sell_token_volume_raw = s.sell_token;
      net_quote_flow = net_signed s.buy_quote s.sell_quote;
      new_unique_buyers = length (filter_by is_first_buy events);
      new_unique_sellers = length (filter_by is_first_sell events);
      creator_buy_volume = s.creator_buy;
      creator_sell_volume = s.creator_sell;
      trade_size_min = fold_ticks with_least none events;
      trade_size_max = fold_ticks with_greatest none events;
      trade_size_median = median_raw (map (λ (e : TradeTick). e.quote_raw) events);
    }

unfoldable pub snapshot_as_of : Window → ℤ → RollingWindowSnapshot
snapshot_as_of w at = snapshot_of w.duration_ms (filter_by (in_window w.duration_ms at) w.events)

unfoldable pub snapshots_as_of : RollingWindows → ℤ → List RollingWindowSnapshot
snapshots_as_of r at =
    if r.enabled then map (λ w. snapshot_as_of w at) r.windows else map empty_window window_ms
