-- ===== src/State/Engine/Counted/Traded.antt =====
-- A trade keeps the counts of a token of apps/engine/src/state/engine.rs in agreement.
use memecoin_bot.Base.{
  ℕ, zero, suc, ◌+◌, ◌-◌, ◌≤◌, ◌≡◌, refl, ◌∙◌, String, Bool, true, false, not, ◌||◌, Option, none,
  some, List, [], ◌∷◌, ◌++◌, arith, if◌then◌else◌, length, All, ltb, eq_string, eq_string→eq,
  sat_add, min, Bool-cases, inl, inr, u256_max,
}
use mathlib.Core.Path.{subst}
use memecoin_bot.Base.Int.{ℤ}
use memecoin_bot.Domain.{QualityStatus}
use memecoin_bot.Domain.Events.{TradeObserved, TokenDiscovered}
use memecoin_bot.State.Clock.{EngineClock}
use memecoin_bot.State.Order.{StateOrder}
use memecoin_bot.State.Rolling.{Counts, bump, TradeTick}
use memecoin_bot.State.Rolling.Counts.{one_if, bump-IsCounts, count_of-bump, length-bump}
use memecoin_bot.State.Engine.{
  TokenState, StateEngine, TokenKey, new_engine, contains_text, insert_text,
}
use memecoin_bot.State.Engine.Market.{is_some}
use memecoin_bot.State.Engine.Trade.{
  is_buy, is_creator, note_times, count_buy, count_sell, note_last, log_tick, tick_of, log_trade,
  count_trade, record_trade, drop,
}
use memecoin_bot.State.Engine.Apply.{new_token}
use memecoin_bot.State.Engine.Counted.{
  SideCounts, buys_of, sells_of, total, IsSide, IsCounted, IsAlike, IsAlike-trans, IsAlike-of,
  alike-IsCounted,
}
use memecoin_bot.State.Engine.Counted.Alike.{
  update_market-IsAlike, record_life-IsAlike, note_discovery-IsAlike, mark_emitted-IsAlike,
}
use memecoin_bot.State.Engine.History.{EngineStep, after_steps}
use memecoin_bot.State.Engine.Lift.{TokenInvariant}
use memecoin_bot.State.Engine.Lift.Steps.{after_steps-Holds}

total-bump : (t : String) (m : Counts) → total (bump t m) ≡ total m + 1
total-bump t [] = omega arith
total-bump t ((k, n) ∷ m) = elim (Bool-cases (eq_string k t)) [
  | inl e ↦ rw e (omega arith)
  | inr e ↦ rw e (omega (arith, total-bump t m))
]

-- One trade of a side.
abbrev count_side : Bool → String → ℕ → SideCounts → SideCounts
count_side creator trader quote s = record {
  trades = s.trades + 1;
  traders = insert_text trader s.traders;
  counts = bump trader s.counts;
  quote = sat_add s.quote quote;
  creator_trades = if creator then s.creator_trades + 1 else s.creator_trades;
  creator_quote = if creator then sat_add s.creator_quote quote else s.creator_quote;
}

contains_text-insert_text :
    (t s : String) (xs : List String)
    → contains_text t (insert_text s xs) ≡ (eq_string s t || contains_text t xs)
contains_text-insert_text t s xs = elim (Bool-cases (contains_text s xs)) [
  | inr e ↦ rw e refl
  | inl e ↦ elim (Bool-cases (eq_string s t)) [
    | inl f ↦
        let same : s ≡ t = eq_string→eq s t f in
        rw (e, f) (subst (λ x. contains_text x xs ≡ true) same e)
    | inr f ↦ rw (e, f) refl
  ]
]

length-insert_text :
    (s : String) (xs : List String)
    → length (insert_text s xs) ≡ length xs + one_if (not (contains_text s xs))
length-insert_text s xs = elim (Bool-cases (contains_text s xs)) [
  | inl e ↦ rw e (omega arith)
  | inr e ↦ rw e (omega arith)
]

creator_step : (creator : Bool) (a b : ℕ) → a ≤ b → (if creator then a + 1 else a) ≤ b + 1
creator_step creator a b h = ground arith

creator_quote_step :
    (creator : Bool) (a b q : ℕ)
    → a ≤ b
    → b ≤ u256_max
    → (if creator then sat_add a q else a) ≤ sat_add b q
creator_quote_step creator a b q h k = ground arith

min_bound : (n : ℕ) → min n u256_max ≤ u256_max
min_bound n = omega arith

count_side-IsSide :
    (creator : Bool) (trader : String) (quote : ℕ) (s : SideCounts)
    → IsSide s
    → IsSide (count_side creator trader quote s)
count_side-IsSide creator trader quote s h = record {
  summed = omega (arith, h.summed, total-bump trader s.counts);
  counted = bump-IsCounts trader s.counts h.counted;
  same_number = ground (
    arith,
    length-insert_text trader s.traders,
    length-bump trader s.counts h.counted,
    h.same_number,
    h.same_traders trader,
  );
  same_traders = λ t. ground (
    arith,
    contains_text-insert_text t trader s.traders,
    count_of-bump t trader s.counts,
    h.same_traders t,
  );
  creator_within = creator_step creator s.creator_trades s.trades h.creator_within;
  creator_quote_within =
      creator_quote_step creator s.creator_quote s.quote quote h.creator_quote_within h.quote_bound;
  quote_bound = min_bound (s.quote + quote);
}

ltb_pos : (n : ℕ) → 1 ≤ n → true ≡ ltb 0 n
ltb_pos n h = ground arith

IsSide-none : IsSide (record {
  trades = 0;
  traders = [];
  counts = [];
  quote = 0;
  creator_trades = 0;
  creator_quote = 0;
})
IsSide-none = record {
  summed = refl;
  counted = tt;
  same_number = refl;
  same_traders = λ t. refl;
  creator_within = omega arith;
  creator_quote_within = omega arith;
  quote_bound = omega arith;
}

first_set : (o : Option ℤ) (t : ℤ) → is_some (if is_some o then o else some t) ≡ true
first_set none t = refl
first_set (some a) t = refl

count_buy-IsCounted :
    (st : TokenState) (deal : TradeObserved) (t : ℤ)
    → IsCounted st
    → IsCounted (count_buy (note_times st deal t) deal)
unfolding count_buy note_times
count_buy-IsCounted st deal t h = record {
  buys =
      count_side-IsSide (is_creator (note_times st deal t) deal) deal.trader deal.quote_amount_raw
        (buys_of st) h.buys;
  sells = h.sells;
  first =
      first_set st.first_trade_at t
      ∙ ltb_pos (st.buy_count_total + 1 + st.sell_count_total) (omega arith);
  logged = h.logged;
}

count_sell-IsCounted :
    (st : TokenState) (deal : TradeObserved) (t : ℤ)
    → IsCounted st
    → IsCounted (count_sell (note_times st deal t) deal)
unfolding count_sell note_times
count_sell-IsCounted st deal t h = record {
  buys = h.buys;
  sells =
      count_side-IsSide (is_creator (note_times st deal t) deal) deal.trader deal.quote_amount_raw
        (sells_of st) h.sells;
  first =
      first_set st.first_trade_at t
      ∙ ltb_pos (st.buy_count_total + (st.sell_count_total + 1)) (omega arith);
  logged = h.logged;
}

length-drop : (n : ℕ) (ts : List TradeTick) → length (drop n ts) ≡ length ts - n
length-drop zero ts = omega arith
length-drop (suc n) [] = omega arith
length-drop (suc n) (t ∷ ts) = omega (arith, length-drop n ts)

length-log_tick : (ts : List TradeTick) (t : TradeTick) → length (log_tick ts t) ≤ 8_192
length-log_tick ts t = let all = ts ++ t ∷ [] in omega (arith, length-drop (length all - 8_192) all)

note_last-IsAlike :
    (st : TokenState) (deal : TradeObserved) (order : StateOrder) (t : ℤ)
    → IsAlike st (note_last st deal order t)
unfolding note_last
note_last-IsAlike st deal order t = IsAlike-of refl refl refl refl

log_trade-IsCounted :
    (before st : TokenState) (deal : TradeObserved) (t : ℤ)
    → IsCounted st
    → IsCounted (log_trade before st deal t)
unfolding log_trade
log_trade-IsCounted before st deal t h = record {
  buys = h.buys;
  sells = h.sells;
  first = h.first;
  logged = length-log_tick st.trade_log (tick_of before deal t);
}

if-IsCounted :
    (b : Bool) (x y : TokenState) → IsCounted x → IsCounted y → IsCounted (if b then x else y)
if-IsCounted true x y h k = h
if-IsCounted false x y h k = k

pub record_trade-IsCounted :
    (st : TokenState) (deal : TradeObserved) (order : StateOrder) (t : ℤ)
    → IsCounted st
    → IsCounted (record_trade st deal order t)
unfolding record_trade count_trade
record_trade-IsCounted st deal order t h =
    let timed = note_times st deal t in
    let counted =
      if-IsCounted (is_buy deal.side) (count_buy timed deal) (count_sell timed deal)
        (count_buy-IsCounted st deal t h) (count_sell-IsCounted st deal t h) in
    log_trade-IsCounted st _ deal t (
      alike-IsCounted
        (IsAlike-trans (note_last-IsAlike _ deal order t) (update_market-IsAlike _ deal)) counted)

new_token-IsCounted :
    (e : StateEngine) (key : TokenKey) (tok : TokenDiscovered) (order : StateOrder) (t : ℤ)
    → IsCounted (new_token e key tok order t)
unfolding new_token
new_token-IsCounted e key tok order t = record {
  buys = IsSide-none;
  sells = IsSide-none;
  first = refl;
  logged = omega arith;
}

IsCounted-invariant : TokenInvariant IsCounted
IsCounted-invariant = record {
  fresh = new_token-IsCounted;
  discovered = λ st tok order t h. alike-IsCounted (note_discovery-IsAlike st tok order t) h;
  traded = record_trade-IsCounted;
  lived = λ st life order t h. alike-IsCounted (record_life-IsAlike st life order t) h;
  emitted = λ s kind at st h. alike-IsCounted (mark_emitted-IsAlike s kind at st) h;
  cooled = λ st h. alike-IsCounted (IsAlike-of refl refl refl refl) h;
  versioned = λ st version h. alike-IsCounted (IsAlike-of refl refl refl refl) h;
  marked = λ st times last h. alike-IsCounted (IsAlike-of refl refl refl refl) h;
}

-- After any sequence of operations on a new engine, the counts of every token agree. On each side the
-- number of trades is the sum over the traders, every trader is in the set of traders exactly where it
-- has a count, each once, and the creator's trades and volume are within the totals. The first trade has
-- a time exactly where a trade is counted, and the log of trades keeps at most 8192.
pub after_steps-IsCounted :
    (clock : EngineClock) (quality : QualityStatus) (session : Option ℤ) (steps : List EngineStep)
    → All IsCounted (after_steps (new_engine clock quality session) steps).tokens
unfolding new_engine
after_steps-IsCounted clock quality session steps =
    after_steps-Holds IsCounted IsCounted-invariant steps (new_engine clock quality session) tt
