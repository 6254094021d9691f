-- ===== src/State/Rolling/Tally.antt =====
-- A window always agrees with its events: apps/engine/src/state/rolling.rs.
use mathlib.Core.Path.{subst}
use memecoin_bot.Base.{
  ℕ, ◌+◌, ◌-◌, ◌≤◌, ◌≡◌, ap, refl, String, Bool, not, ◌&&◌, List, [], ◌∷◌, ◌++◌, arith,
  if◌then◌else◌, eq_string_self, length, Bool-cases, inl, inr, u256_max,
}
use memecoin_bot.Base.Int.{ℤ}
use memecoin_bot.State.Rolling.{
  TradeTick, Counts, count_of, bump, drop_one, Window, new, add, remove, is_stale, expire_from,
  expire, push,
}
use memecoin_bot.State.Rolling.Counts.{
  IsCounts, count_of-bump, bump-IsCounts, count_of-drop_one, drop_one-IsCounts, length-bump,
  length-drop_one,
}
use memecoin_bot.State.Rolling.Traders.{sum_of, sum_of-append, made_by, traders, traders-append}

-- The fields of a window that are sums over its events.
pub data Measure : Type 0 where
  buys sells buy_quotes sell_quotes buy_tokens sell_tokens : Measure
  creator_buys creator_sells first_buys first_sells : Measure

abbrev pub read : Measure → Window → ℕ
read buys w = w.buy_count
read sells w = w.sell_count
read buy_quotes w = w.buy_quote
read sell_quotes w = w.sell_quote
read buy_tokens w = w.buy_token
read sell_tokens w = w.sell_token
read creator_buys w = w.creator_buy
read creator_sells w = w.creator_sell
read first_buys w = w.new_buyers
read first_sells w = w.new_sellers

-- What one event adds.
abbrev pub part : Measure → TradeTick → ℕ
part buys e = if e.is_buy then 1 else 0
part sells e = if e.is_buy then 0 else 1
part buy_quotes e = if e.is_buy then e.quote_raw else 0
part sell_quotes e = if e.is_buy then 0 else e.quote_raw
part buy_tokens e = if e.is_buy then e.token_raw else 0
part sell_tokens e = if e.is_buy then 0 else e.token_raw
part creator_buys e = if e.is_buy && e.is_creator then e.quote_raw else 0
part creator_sells e = if not e.is_buy && e.is_creator then e.quote_raw else 0
part first_buys e = if e.is_buy && e.first_buy then 1 else 0
part first_sells e = if not e.is_buy && e.first_sell then 1 else 0

abbrev pub is_sell_tick : TradeTick → Bool
is_sell_tick e = not e.is_buy

abbrev pub is_buy_tick : TradeTick → Bool
is_buy_tick e = e.is_buy

-- The counts of the traders on one side of the market, for the events.
pub record IsCountOf (acts : TradeTick → Bool) (m : Counts) (es : List TradeTick) : Type 0 where
  pub sound : IsCounts m
  pub counts : (t : String) → count_of t m ≡ sum_of (made_by acts t) es
  pub size : length m ≡ traders acts es

-- Every field of the window is what its events make it.
pub record IsTally (w : Window) : Type 0 where
  pub sums : (m : Measure) → read m w ≡ sum_of (part m) w.events
  pub buyers_of : IsCountOf is_buy_tick w.buyers w.events
  pub sellers_of : IsCountOf is_sell_tick w.sellers w.events

read-events :
    (m : Measure) (w : Window) (es : List TradeTick) → read m (record w { events = es }) ≡ read m w
read-events m w es = ground arith

read-add :
    (m : Measure) (w : Window) (e : TradeTick)
    → read m w + part m e ≤ u256_max
    → read m (add w e) ≡ read m w + part m e
unfolding add
read-add m w e fits = ground arith

read-remove : (m : Measure) (w : Window) (e : TradeTick) → read m (remove w e) ≡ read m w - part m e
unfolding remove
read-remove m w e = ground arith

module _ (acts : TradeTick → Bool) (m : Counts) (e : TradeTick) where
  -- One more event at the end.
  pub bumped-IsCountOf :
      (es : List TradeTick)
      → IsCountOf acts m es
      → IsCountOf acts (if acts e then bump e.trader m else m) (es ++ e ∷ [])
  bumped-IsCountOf es c = elim (Bool-cases (acts e)) [
    | inl y ↦ rw y (record {
      sound = bump-IsCounts e.trader m c.sound;
      counts = λ t. ground (
        arith,
        c.counts t,
        count_of-bump t e.trader m,
        sum_of-append (made_by acts t) es (e ∷ []),
      );
      size = ground (
        arith,
        c.size,
        c.counts e.trader,
        length-bump e.trader m c.sound,
        traders-append acts es e,
      );
    })
    | inr n ↦ rw n (record {
      sound = c.sound;
      counts = λ t. ground (arith, c.counts t, sum_of-append (made_by acts t) es (e ∷ []));
      size = ground (arith, c.size, traders-append acts es e);
    })
  ]

  -- The first event goes.
  dropped-IsCountOf :
      (es : List TradeTick)
      → IsCountOf acts m (e ∷ es)
      → IsCountOf acts (if acts e then drop_one e.trader m else m) es
  dropped-IsCountOf es c = elim (Bool-cases (acts e)) [
    | inl y ↦ rw y (record {
      sound = drop_one-IsCounts e.trader m c.sound;
      counts = λ t. ground (arith, c.counts t, count_of-drop_one t e.trader m c.sound);
      size = ground (
        arith,
        c.size,
        c.counts e.trader,
        length-drop_one e.trader m c.sound,
        eq_string_self e.trader,
      );
    })
    | inr n ↦ rw n (record {
      sound = c.sound;
      counts = λ t. ground (arith, c.counts t);
      size = ground (arith, c.size);
    })
  ]

module _ (w : Window) (e : TradeTick) where
  add_lem :
      ((add w e).events ≡ w.events)
      × ((add w e).buyers ≡ (if is_buy_tick e then bump e.trader w.buyers else w.buyers))
      × ((add w e).sellers ≡ (if is_sell_tick e then bump e.trader w.sellers else w.sellers))
      × ((add w e).duration_ms ≡ w.duration_ms)
  unfolding add
  add_lem = elim (Bool-cases e.is_buy) [
    | inl b ↦ rw b (refl, refl, refl, refl)
    | inr b ↦ rw b (refl, refl, refl, refl)
  ]

  pub remove_lem :
      ((remove w e).events ≡ w.events)
      × ((remove w e).buyers ≡ (if is_buy_tick e then drop_one e.trader w.buyers else w.buyers))
      × ((remove w e).sellers ≡ (if is_sell_tick e then drop_one e.trader w.sellers else w.sellers))
      × ((remove w e).duration_ms ≡ w.duration_ms)
  unfolding remove
  remove_lem = elim (Bool-cases e.is_buy) [
    | inl b ↦ rw b (refl, refl, refl, refl)
    | inr b ↦ rw b (refl, refl, refl, refl)
  ]

  pub push-events : (push w e).events ≡ w.events ++ e ∷ []
  unfolding push
  push-events = ap (λ es. es ++ e ∷ []) add_lem.0

  pub push-IsTally :
      IsTally w
      → ((m : Measure) → sum_of (part m) w.events + part m e ≤ u256_max)
      → IsTally (push w e)
  unfolding push
  push-IsTally v fits =
      let (same, bs, ss, _) = add_lem in
      record {
        sums = λ m. omega (
          arith,
          v.sums m,
          fits m,
          read-events m (add w e) ((add w e).events ++ e ∷ []),
          read-add m w e,
          sum_of-append (part m) w.events (e ∷ []),
          ap (λ xs. sum_of (part m) (xs ++ e ∷ [])) same,
        );
        buyers_of = rw (same, bs) (bumped-IsCountOf is_buy_tick w.buyers e w.events v.buyers_of);
        sellers_of =
            rw (same, ss) (bumped-IsCountOf is_sell_tick w.sellers e w.events v.sellers_of);
      }

-- Taking the first event off, as `expire` does.
popped-IsTally :
    (w : Window) (e : TradeTick) (es : List TradeTick)
    → w.events ≡ e ∷ es
    → IsTally w
    → IsTally (remove (record w { events = es }) e)
popped-IsTally w e es first v =
    let (same, bs, ss, _) = remove_lem (record w { events = es }) e in
    record {
      sums = λ m. omega (
        arith,
        v.sums m,
        ap (sum_of (part m)) first,
        read-remove m (record w { events = es }) e,
        read-events m w es,
        ap (sum_of (part m)) same,
      );
      buyers_of =
          rw (same, bs)
            (dropped-IsCountOf is_buy_tick w.buyers e es
              (subst (IsCountOf is_buy_tick w.buyers) first v.buyers_of));
      sellers_of =
          rw (same, ss)
            (dropped-IsCountOf is_sell_tick w.sellers e es
              (subst (IsCountOf is_sell_tick w.sellers) first v.sellers_of));
    }

expire_from-IsTally :
    (now : ℤ) (es : List TradeTick) (w : Window)
    → w.events ≡ es
    → IsTally w
    → IsTally (expire_from now es w)
expire_from-IsTally now [] w same v = v
expire_from-IsTally now (e ∷ es) w same v = elim (Bool-cases (is_stale w.duration_ms now e)) [
  | inl old ↦
      rw (old, expire_from)
        (expire_from-IsTally now es (remove (record w { events = es }) e)
          (remove_lem (record w { events = es }) e).0 (popped-IsTally w e es same v))
  | inr young ↦ rw (young, expire_from) v
]

pub expire-IsTally : (w : Window) (now : ℤ) → IsTally w → IsTally (expire w now)
unfolding expire
expire-IsTally w now v = expire_from-IsTally now w.events w refl v

pub new-IsTally : (duration_ms : ℤ) → IsTally (new duration_ms)
new-IsTally duration_ms = record {
  sums = λ m. ground arith;
  buyers_of = record { sound = tt; counts = λ t. refl; size = refl };
  sellers_of = record { sound = tt; counts = λ t. refl; size = refl };
}
