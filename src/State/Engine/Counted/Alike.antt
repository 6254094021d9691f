-- ===== src/State/Engine/Counted/Alike.antt =====
-- The updates of a token of apps/engine/src/state/engine.rs that count no trade.
use memecoin_bot.Base.{refl, String, not, ◌&&◌, ◌||◌, Option, none, some}
use memecoin_bot.Base.Int.{ℤ}
use memecoin_bot.Domain.Events.{
  TradeObserved, LifecycleObserved, LifecycleType, LifecycleMeta, TokenDiscovered,
}
use memecoin_bot.State.Market
use memecoin_bot.State.Lifecycle
use memecoin_bot.State.Market.{MarketState}
use memecoin_bot.State.Order.{StateOrder}
use memecoin_bot.State.Schedule.{SnapshotSchedule}
use memecoin_bot.State.Snapshot.{SnapshotKind}
use memecoin_bot.State.Engine.{TokenState, or_text}
use memecoin_bot.State.Engine.Market.{
  is_some, on_curve_trade, on_v4_trade, on_pool_trade, updates_pool, update_market_from_trade,
  apply_v4_meta,
}
use memecoin_bot.State.Engine.Emit.{mark_emitted, is_lifecycle}
use memecoin_bot.State.Engine.Life.{
  with_pool, pool_on, is_pump, on_pool_created, on_pool_graduated, on_type, note_life, record_life,
}
use memecoin_bot.State.Engine.Apply.{note_discovery}
use memecoin_bot.State.Engine.Counted.{IsAlike, IsAlike-trans, IsAlike-of, if-IsAlike}

elim_IsAlike :
    {A : Type 0} (o : Option A) (st x : TokenState) (f : A → TokenState)
    → IsAlike st x
    → ((a : A) → IsAlike st (f a))
    → IsAlike st (elim o [ some a ↦ f a | none ↦ x ])
elim_IsAlike none st x f h k = h
elim_IsAlike (some a) st x f h k = k a

on_pool_trade-IsAlike :
    (st : TokenState) (deal : TradeObserved) → IsAlike st (on_pool_trade st deal)
unfolding on_pool_trade
on_pool_trade-IsAlike st deal =
    if-IsAlike (updates_pool deal.launchpad st.lifecycle_state) st _ _
      (IsAlike-of refl refl refl refl) (IsAlike-of refl refl refl refl)

pub update_market-IsAlike :
    (st : TokenState) (deal : TradeObserved) → IsAlike st (update_market_from_trade st deal)
unfolding update_market_from_trade on_curve_trade on_v4_trade
update_market-IsAlike st deal =
    let m = deal.metadata in
    if-IsAlike (is_some m.virtual_token_reserves || is_some m.virtual_sol_reserves) st _ _
      (IsAlike-of refl refl refl refl)
      (elim_IsAlike m.sqrt_price_x96 st (on_pool_trade st deal) (λ sqrt. on_v4_trade st deal sqrt)
        (on_pool_trade-IsAlike st deal) (λ sqrt. IsAlike-of refl refl refl refl))

apply_v4_meta-IsAlike : (st : TokenState) (m : LifecycleMeta) → IsAlike st (apply_v4_meta st m)
unfolding apply_v4_meta
apply_v4_meta-IsAlike st m =
    if-IsAlike (not (is_some m.sqrt_price_x96) && not (is_some m.currency0)) st _ _
      (IsAlike-of refl refl refl refl) (IsAlike-of refl refl refl refl)

with_pool-IsAlike : (st : TokenState) (o : Option String) → IsAlike st (with_pool st o)
unfolding with_pool
with_pool-IsAlike st none = IsAlike-of refl refl refl refl
with_pool-IsAlike st (some pool) = IsAlike-of refl refl refl refl

pool_on-IsAlike :
    (st : TokenState) (o : Option String) (m : MarketState) → IsAlike st (pool_on st o m)
pool_on-IsAlike st o (Market.uniswap_v4 s) = IsAlike-of refl refl refl refl
pool_on-IsAlike st o (Market.bonding_curve s) = with_pool-IsAlike st o
pool_on-IsAlike st o (Market.constant_product s) = with_pool-IsAlike st o
pool_on-IsAlike st o Market.MarketState.unknown = with_pool-IsAlike st o

on_pool_created-IsAlike :
    (st : TokenState) (life : LifecycleObserved) → IsAlike st (on_pool_created st life)
unfolding on_pool_created
on_pool_created-IsAlike st life =
    IsAlike-trans
      (if-IsAlike (is_pump st.launchpad) st _ _ (IsAlike-of refl refl refl refl)
        (IsAlike-of refl refl refl refl))
      (IsAlike-trans (pool_on-IsAlike _ life.pool _) (apply_v4_meta-IsAlike _ life.metadata))

on_type-IsAlike :
    (type : LifecycleType) (st : TokenState) (life : LifecycleObserved) (t : ℤ)
    → IsAlike st (on_type type st life t)
unfolding on_type on_pool_graduated
on_type-IsAlike LifecycleType.token_created st life t = IsAlike-of refl refl refl refl
on_type-IsAlike LifecycleType.migration_started st life t = IsAlike-of refl refl refl refl
on_type-IsAlike LifecycleType.migrated st life t =
    IsAlike-trans
      (IsAlike-of {st' = record st { lifecycle_state = Lifecycle.migrating }} refl refl refl refl)
      (with_pool-IsAlike _ life.pool)
on_type-IsAlike LifecycleType.curve_completed st life t =
    IsAlike-trans
      (IsAlike-of {st' = record st { lifecycle_state = Lifecycle.migrating }} refl refl refl refl)
      (with_pool-IsAlike _ life.pool)
on_type-IsAlike LifecycleType.launch_swept st life t = IsAlike-of refl refl refl refl
on_type-IsAlike LifecycleType.pool_created st life t = on_pool_created-IsAlike st life
on_type-IsAlike LifecycleType.pool_graduated st life t =
    IsAlike-trans (IsAlike-of refl refl refl refl) (apply_v4_meta-IsAlike _ life.metadata)
on_type-IsAlike LifecycleType.snipe_tax_charged st life t = IsAlike-of refl refl refl refl

pub record_life-IsAlike :
    (st : TokenState) (life : LifecycleObserved) (order : StateOrder) (t : ℤ)
    → IsAlike st (record_life st life order t)
unfolding record_life note_life
record_life-IsAlike st life order t =
    let placed = record st {
      curve = or_text life.curve st.curve;
      pool = or_text life.pool st.pool;
    } in
    IsAlike-trans (IsAlike-of {st' = placed} refl refl refl refl) (
      IsAlike-trans (on_type-IsAlike life.lifecycle_type placed life t)
        (IsAlike-of refl refl refl refl))

pub note_discovery-IsAlike :
    (st : TokenState) (tok : TokenDiscovered) (order : StateOrder) (t : ℤ)
    → IsAlike st (note_discovery st tok order t)
unfolding note_discovery
note_discovery-IsAlike st tok order t = IsAlike-of refl refl refl refl

pub mark_emitted-IsAlike :
    (s : SnapshotSchedule) (kind : SnapshotKind) (at : ℤ) (st : TokenState)
    → IsAlike st (mark_emitted s kind at st)
unfolding mark_emitted
mark_emitted-IsAlike s kind at st =
    if-IsAlike (is_lifecycle kind) st _ _ (IsAlike-of refl refl refl refl)
      (IsAlike-of refl refl refl refl)
