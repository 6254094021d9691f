-- ===== src/State/Engine/Lift/Applied.antt =====
-- The functions of apps/engine/src/state/engine.rs that apply an event keep an invariant of tokens.
use memecoin_bot.Base.{ℕ, zero, suc, String, Option, none, some, List, [], ◌∷◌, length, All}
use memecoin_bot.Base.Int.{ℤ}
use memecoin_bot.Domain.Events.{TokenDiscovered, TradeObserved, LifecycleObserved}
use memecoin_bot.State.Order.{StateOrder}
use memecoin_bot.State.Engine.{
  TokenKey, TokenState, StateEngine, find_token, new_key, is_empty_text,
}
use memecoin_bot.State.Engine.Market.{is_some}
use memecoin_bot.State.Engine.Emit.{emit_lifecycle_snapshot}
use memecoin_bot.State.Engine.Trade.{is_first_amm, count_trade}
use memecoin_bot.State.Engine.Life.{record_life}
use memecoin_bot.State.Engine.Apply.{
  new_token, note_discovery, known_state, apply_discovered, trade_on, known_or, trade_at,
  apply_trade, flush_one, flush_each, flush_nested, flush_unresolved_trades, life_on, life_at,
  apply_lifecycle, resolve_trade, resolve_life, is_snipe_tax,
}
use memecoin_bot.State.Engine.Lift
use memecoin_bot.State.Engine.Lift.{TokenInvariant}

module _ (P : TokenState → Type 0) (inv : TokenInvariant P) where
  abbrev pub Holds : StateEngine → Type 0
  Holds e = All P e.tokens

  abbrev pub HoldsOn : Option TokenState → Type 0
  HoldsOn o = Lift.HoldsOn P inv o

  module _ (wall : ℤ) where
    emit_lifecycle-Holds :
        (e : StateEngine) (key : TokenKey) (trigger : String)
        → Holds e
        → Holds (emit_lifecycle_snapshot wall e key trigger)
    unfolding emit_lifecycle_snapshot
    emit_lifecycle-Holds e key trigger h = Lift.push_snapshot-Holds P inv e key _ _ _ h

    trade_on-Holds :
        (e : StateEngine) (key : TokenKey) (deal : TradeObserved) (order : StateOrder) (t : ℤ)
        (o : Option TokenState)
        → HoldsOn o
        → Holds e
        → Holds (trade_on wall e key deal order t o)
    unfolding trade_on
    trade_on-Holds e key deal order t none p h = h
    trade_on-Holds e key deal order t (some st) p h =
        let written = Lift.put_token-Holds P inv _ e.tokens (inv.traded st deal order t p) h in
        let first =
          Lift.if-Holds P inv (is_some st.first_trade_at) _ _ written
            (emit_lifecycle-Holds _ key "FIRST_TRADE" written) in
        Lift.if-Holds P inv (is_first_amm (count_trade st deal order t)) _ _
          (emit_lifecycle-Holds _ key "AMM_FIRST_TRADE" first) first

    module _ (flush : StateEngine → StateEngine)
        (keeps : (e : StateEngine) → Holds e → Holds (flush e)) where
      pub apply_discovered-Holds :
          (e : StateEngine) (tok : TokenDiscovered) (order : StateOrder) (t : ℤ)
          → Holds e
          → Holds (apply_discovered wall flush e tok order t)
      unfolding apply_discovered
      apply_discovered-Holds e tok order t h =
          let key = new_key tok.chain tok.token_address in
          let known = find_token key e.tokens in
          let st = known_state (new_token e key tok order t) known in
          let held =
            Lift.known_state-Holds P inv (new_token e key tok order t) known
              (inv.fresh e key tok order t) (Lift.find_token-Holds P inv key e.tokens h) in
          let written =
            Lift.write_back-Holds P inv e (note_discovery st tok order t) key
              (inv.discovered st tok order t held) h in
          Lift.if-Holds P inv (is_empty_text tok.token_address) e _ h (
            keeps _ (
              Lift.if-Holds P inv (is_some known) _ _ written
                (emit_lifecycle-Holds _ key "TOKEN_CREATED" written)))

      known_or-Holds :
          (e : StateEngine) (key : TokenKey) (tok : TokenDiscovered) (order : StateOrder) (t : ℤ)
          → Holds e
          → Holds (known_or wall flush e key tok order t)
      unfolding known_or
      known_or-Holds e key tok order t h =
          Lift.if-Holds P inv (is_some (find_token key e.tokens)) e _ h
            (apply_discovered-Holds e tok order t h)

      trade_at-Holds :
          (e : StateEngine) (deal : TradeObserved) (order : StateOrder) (t : ℤ)
          (o : Option TokenKey)
          → Holds e
          → Holds (trade_at wall flush e deal order t o)
      unfolding trade_at
      trade_at-Holds e deal order t none h = h
      trade_at-Holds e deal order t (some key) h =
          let known = known_or-Holds e key _ order t h in
          trade_on-Holds _ key deal order t _ (Lift.find_token-Holds P inv key _ known) known

      pub apply_trade-Holds :
          (e : StateEngine) (deal : TradeObserved) (order : StateOrder) (t : ℤ)
          → Holds e
          → Holds (apply_trade wall flush e deal order t)
      unfolding apply_trade
      apply_trade-Holds e deal order t h = trade_at-Holds e deal order t (resolve_trade e deal) h

      flush_one-Holds :
          (e : StateEngine) (x : StateOrder × TradeObserved × ℤ)
          → Holds e
          → Holds (flush_one wall flush e x)
      unfolding flush_one
      flush_one-Holds e (order, deal, t) h =
          Lift.if-Holds P inv (is_some (resolve_trade e deal)) _ _
            (apply_trade-Holds e deal order t h) h

      flush_each-Holds :
          (pending : List (StateOrder × TradeObserved × ℤ)) (e : StateEngine)
          → Holds e
          → Holds (flush_each wall flush e pending)
      flush_each-Holds [] e h = h
      flush_each-Holds (x ∷ pending) e h =
          flush_each-Holds pending (flush_one wall flush e x) (flush_one-Holds e x h)

    flush_nested-Holds : (n : ℕ) (e : StateEngine) → Holds e → Holds (flush_nested wall n e)
    unfolding flush_nested
    flush_nested-Holds zero e h = h
    flush_nested-Holds (suc n) e h =
        flush_each-Holds (flush_nested wall n) (flush_nested-Holds n) e.unresolved_trades
          (record e { unresolved_trades = [] }) h

    pub flush_unresolved_trades-Holds :
        (e : StateEngine) → Holds e → Holds (flush_unresolved_trades wall e)
    unfolding flush_unresolved_trades
    flush_unresolved_trades-Holds e h = flush_nested-Holds (length e.unresolved_trades) e h

    life_on-Holds :
        (e : StateEngine) (key : TokenKey) (life : LifecycleObserved) (order : StateOrder) (t : ℤ)
        (o : Option TokenState)
        → HoldsOn o
        → Holds e
        → Holds (life_on wall e key life order t o)
    unfolding life_on
    life_on-Holds e key life order t none p h = h
    life_on-Holds e key life order t (some st) p h =
        let written =
          Lift.write_back-Holds P inv e (record_life st life order t) key
            (inv.lived st life order t p) h in
        flush_unresolved_trades-Holds _ (
          Lift.if-Holds P inv (is_snipe_tax life.lifecycle_type) _ _ written
            (emit_lifecycle-Holds _ key _ written))

    life_at-Holds :
        (e : StateEngine) (life : LifecycleObserved) (order : StateOrder) (t : ℤ)
        (o : Option TokenKey)
        → Holds e
        → Holds (life_at wall e life order t o)
    unfolding life_at
    life_at-Holds e life order t none h = h
    life_at-Holds e life order t (some key) h =
        let known = Lift.if-Holds P inv (is_empty_text life.token_address) _ _ h (
          known_or-Holds (flush_unresolved_trades wall) flush_unresolved_trades-Holds e key _ order
            t h) in
        life_on-Holds _ key life order t _ (Lift.find_token-Holds P inv key _ known) known

    pub apply_lifecycle-Holds :
        (e : StateEngine) (life : LifecycleObserved) (order : StateOrder) (t : ℤ)
        → Holds e
        → Holds (apply_lifecycle wall e life order t)
    unfolding apply_lifecycle
    apply_lifecycle-Holds e life order t h = life_at-Holds e life order t (resolve_life e life) h
