-- ===== src/Engine.antt =====
-- include/hft/engine.hpp and the runner of include/hft/strategy.hpp: the strategy and the gateway
-- joined by their two queues, in any interleaving of their work. A queue is the list of what waits in
-- it, which is what SpscQueue promises; `emit` waits for room, so a push always succeeds. The network
-- may deliver any report at any time.
pub mod Stuck
pub mod Waits
pub mod Released
pub mod Polls
use high_frequency_trading_e.Prelude.{ℕ, ◌≡◌, Bool, List, [], ◌∷◌, ◌++◌, Option, none, some}
use high_frequency_trading_e.Wire.{OrderRequest, ExecReport, MdEvent}
use high_frequency_trading_e.Strategy.{ImbalanceStrategy, on_md, on_fill}
use high_frequency_trading_e.Gateway.{OrderGateway, handle_fill, send}

pub record Engine : Type 0 where
  pub strat : ImbalanceStrategy
  pub gw : OrderGateway
  pub order_q : List OrderRequest
  pub fill_q : List ExecReport
  -- the orders that went to the exchange, oldest first
  pub wire : List OrderRequest

abbrev pub to_list {ℓ} : {A : Type ℓ} → Option A → List A
to_list none = []
to_list (some a) = a ∷ []

-- the strategy takes a market-data event
abbrev pub on_event : Engine → MdEvent → Engine
on_event e ev = record e {
  strat = (on_md e.strat ev).0;
  order_q = e.order_q ++ to_list (on_md e.strat ev).1;
}

-- the strategy takes the fill `rep`, the oldest in its queue, and leaves `rest`
abbrev pub on_report : Engine → ExecReport → List ExecReport → Engine
on_report e rep rest = record e { strat = on_fill e.strat rep; fill_q = rest }

-- the gateway takes a report from the network
abbrev pub on_datagram : Engine → ExecReport → Engine
on_datagram e rep = record e {
  gw = (handle_fill e.gw rep).0;
  fill_q = e.fill_q ++ (handle_fill e.gw rep).1;
}

-- the gateway takes the order `o`, the oldest in its queue, and leaves `rest`
abbrev pub on_order : Engine → Bool → ℕ → ℕ → OrderRequest → List OrderRequest → Engine
on_order e kill t0 send_t o rest = record e {
  gw = (send e.gw kill t0 send_t o).0;
  order_q = rest;
  wire = e.wire ++ to_list (send e.gw kill t0 send_t o).1;
}

pub data Step (e : Engine) : Engine → Type 0 where
  event : (ev : MdEvent) → Step e (on_event e ev)
  report :
      (rep : ExecReport) (rest : List ExecReport)
      → e.fill_q ≡ rep ∷ rest
      → Step e (on_report e rep rest)
  datagram : (rep : ExecReport) → Step e (on_datagram e rep)
  order :
      (kill : Bool) (t0 send_t : ℕ) (o : OrderRequest) (rest : List OrderRequest)
      → e.order_q ≡ o ∷ rest
      → Step e (on_order e kill t0 send_t o rest)

pub data Reach (first : Engine) : Engine → Type 0 where
  here : Reach first first
  later : {x y : Engine} → Reach first x → Step x y → Reach first y
