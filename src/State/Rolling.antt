-- ===== src/State/Rolling.antt =====
-- The rolling windows of apps/engine/src/state/rolling.rs. A `HashMap` of counts is a list of its
-- entries, each key once, and amounts are the numbers of their decimal strings.
pub mod Counts
pub mod Traders
pub mod Tally
pub mod Expiry
pub mod History
pub mod Report
pub mod AsOf
use memecoin_bot.Base.{
  ℕ, zero, suc, ◌+◌, ◌-◌, ◌/◌, ◌%◌, String, Bool, true, false, not, ◌&&◌, Option, none, some, List,
  [], ◌∷◌, ◌++◌, map, leb, ◌==◌, if◌then◌else◌, eq_string, length, get_elem?, filter_by, sat_add,
  min, max,
}
use memecoin_bot.Base.Int.{ℤ, pos, ◌-ℤ◌, leb_ℤ, ltb_ℤ, eq_ℤ}

pub record TradeTick : Type 0 where
  pub time_ms : ℤ
  pub trader : String
  pub is_buy : Bool
  pub is_creator : Bool
  pub quote_raw : ℕ
  pub token_raw : ℕ
  pub first_buy : Bool
  pub first_sell : Bool

abbrev pub Counts : Type 0
Counts = List (String × ℕ)

-- The count of a key, 0 where it has no entry.
abbrev pub count_of : String → Counts → ℕ
count_of t [] = 0
count_of t ((k, n) ∷ m) = if eq_string k t then n else count_of t m

-- `*entry(t).or_insert(0) += 1`.
abbrev pub bump : String → Counts → Counts
bump t [] = (t, 1) ∷ []
bump t ((k, n) ∷ m) = if eq_string k t then (k, n + 1) ∷ m else (k, n) ∷ bump t m

-- One less, and the entry removed at 0.
abbrev pub drop_one : String → Counts → Counts
drop_one t [] = []
drop_one t ((k, n) ∷ m) =
    if eq_string k t then if n - 1 == 0 then m else (k, n - 1) ∷ m else (k, n) ∷ drop_one t m

pub record Window : Type 0 where
  pub duration_ms : ℤ
  pub events : List TradeTick
  pub buy_count : ℕ
  pub sell_count : ℕ
  pub buyers : Counts
  pub sellers : Counts
  pub buy_quote : ℕ
  pub sell_quote : ℕ
  pub buy_token : ℕ
  pub sell_token : ℕ
  pub creator_buy : ℕ
  pub creator_sell : ℕ
  pub new_buyers : ℕ
  pub new_sellers : ℕ

abbrev pub new : ℤ → Window
new duration_ms = record {
  duration_ms = duration_ms;
  events = [];
  buy_count = 0;
  sell_count = 0;
  buyers = [];
  sellers = [];
  buy_quote = 0;
  sell_quote = 0;
  buy_token = 0;
  sell_token = 0;
  creator_buy = 0;
  creator_sell = 0;
  new_buyers = 0;
  new_sellers = 0;
}

unfoldable pub add : Window → TradeTick → Window
add w e =
    if e.is_buy
    then record w {
      buy_count = w.buy_count + 1;
      buyers = bump e.trader w.buyers;
      buy_quote = sat_add w.buy_quote e.quote_raw;
      buy_token = sat_add w.buy_token e.token_raw;
      new_buyers = if e.first_buy then w.new_buyers + 1 else w.new_buyers;
      creator_buy = if e.is_creator then sat_add w.creator_buy e.quote_raw else w.creator_buy;
    }
    else record w {
      sell_count = w.sell_count + 1;
      sellers = bump e.trader w.sellers;
      sell_quote = sat_add w.sell_quote e.quote_raw;
      sell_token = sat_add w.sell_token e.token_raw;
      new_sellers = if e.first_sell then w.new_sellers + 1 else w.new_sellers;
      creator_sell = if e.is_creator then sat_add w.creator_sell e.quote_raw else w.creator_sell;
    }

unfoldable pub remove : Window → TradeTick → Window
remove w e =
    if e.is_buy
    then record w {
      buy_count = w.buy_count - 1;
      buyers = drop_one e.trader w.buyers;
      buy_quote = w.buy_quote - e.quote_raw;
      buy_token = w.buy_token - e.token_raw;
      new_buyers = if e.first_buy then w.new_buyers - 1 else w.new_buyers;
      creator_buy = if e.is_creator then w.creator_buy - e.quote_raw else w.creator_buy;
    }
    else record w {
      sell_count = w.sell_count - 1;
      sellers = drop_one e.trader w.sellers;
      sell_quote = w.sell_quote - e.quote_raw;
      sell_token = w.sell_token - e.token_raw;
      new_sellers = if e.first_sell then w.new_sellers - 1 else w.new_sellers;
      creator_sell = if e.is_creator then w.creator_sell - e.quote_raw else w.creator_sell;
    }

abbrev pub is_stale : ℤ → ℤ → TradeTick → Bool
is_stale duration_ms now e = leb_ℤ duration_ms (now -ℤ e.time_ms)

-- The loop of `expire`, over the events of the window.
abbrev pub expire_from : ℤ → List TradeTick → Window → Window
expire_from now [] w = w
expire_from now (e ∷ es) w = elim (is_stale w.duration_ms now e) [
  | true ↦ expire_from now es (remove (record w { events = es }) e)
  | false ↦ w
]

unfoldable pub expire : Window → ℤ → Window
expire w now = expire_from now w.events w

unfoldable pub push : Window → TradeTick → Window
push w e = let next = add w e in record next { events = next.events ++ e ∷ [] }

abbrev pub window_ms : List ℤ
window_ms =
    pos 5_000 ∷ pos 15_000 ∷ pos 30_000 ∷ pos 60_000 ∷ pos 120_000 ∷ pos 300_000 ∷ pos 900_000 ∷ []

pub record RollingWindows : Type 0 where
  pub windows : List Window
  pub enabled : Bool

unfoldable pub new_windows : RollingWindows
new_windows = record { windows = map new window_ms; enabled = true }

unfoldable pub disabled_windows : RollingWindows
disabled_windows = record new_windows { enabled = false }

unfoldable pub push_all : RollingWindows → ℤ → TradeTick → RollingWindows
push_all r now tick =
    if r.enabled then record r { windows = map (λ w. push (expire w now) tick) r.windows } else r

unfoldable pub expire_all : RollingWindows → ℤ → RollingWindows
expire_all r now = if r.enabled then record r { windows = map (λ w. expire w now) r.windows } else r

unfoldable pub drop_ticks : RollingWindows → RollingWindows
drop_ticks r = record { windows = []; enabled = false }
