-- ===== src/Gateway/Table.antt =====
-- The table of orders in flight: what was sent is matched once.
use high_frequency_trading_e.Prelude.{
  ℕ, ◌^◌, ◌<◌, ◌≡◌, refl, sym, ap, ◌∙◌, Bool, true, false, [], ◌∷◌, none, some, arith, ==_iff,
  length, get_or, set, get_or-set, length-set,
}
use high_frequency_trading_e.Prelude.Mask.{bit_and_mask, two_pow_pos}
use native.Mathlib.Nat.{mod-lt}
use high_frequency_trading_e.Wire.{OrderRequest, ExecReport}
use high_frequency_trading_e.Risk.{RiskGate, RiskResult, check, is_accept}
use high_frequency_trading_e.Risk
use high_frequency_trading_e.Gateway.{
  OrderGateway, InFlight, no_order, slot, matches, handle_fill, send, inc64,
}

-- The table has its size.
abbrev pub Sized : OrderGateway → Type 0
Sized g = length g.inflight ≡ 2 ^ g.bits

slot_below : (g : OrderGateway) (order_id : ℕ) → Sized g → slot g order_id < length g.inflight
unfolding slot
slot_below g order_id sz =
    rw (bit_and_mask order_id g.bits) (omega (arith, mod-lt order_id (two_pow_pos g.bits)))

-- The gateway once a report has been matched, and once it has not.
abbrev pub settled : OrderGateway → ExecReport → InFlight → OrderGateway
settled g rep s = record g {
  inflight = set g.inflight (slot g rep.order_id) (record s { active = false });
  fills_matched = inc64 g.fills_matched;
  risk = Risk.on_fill g.risk rep;
}

abbrev pub missed : OrderGateway → OrderGateway
missed g = record g { fills_unmatched = inc64 g.fills_unmatched }

-- the slot that a report names
abbrev pub entry : OrderGateway → ℕ → InFlight
entry g order_id = get_or g.inflight (slot g order_id) no_order

handle_fill-hit :
    (g : OrderGateway) (rep : ExecReport)
    → matches (entry g rep.order_id) rep ≡ true
    → handle_fill g rep ≡ (settled g rep (entry g rep.order_id), rep ∷ [])
unfolding handle_fill
handle_fill-hit g rep e = rw e refl

pub handle_fill-miss :
    (g : OrderGateway) (rep : ExecReport)
    → matches (entry g rep.order_id) rep ≡ false
    → handle_fill g rep ≡ (missed g, [])
unfolding handle_fill
handle_fill-miss g rep e = rw e refl

-- A write to the slot of an order is read back there.
entry-set :
    (g : OrderGateway) (order_id : ℕ) (s : InFlight)
    → Sized g
    → get_or (set g.inflight (slot g order_id) s) (slot g order_id) no_order ≡ s
entry-set g order_id s sz =
    get_or-set g.inflight (slot g order_id) (slot g order_id) s no_order (slot_below g order_id sz)
    ∙ rw ((==_iff (slot g order_id) (slot g order_id)).1 refl) refl

abbrev pub recorded : OrderRequest → ℕ → InFlight
recorded o send_t = record {
  order_id = o.order_id;
  send_tsc = send_t;
  md_tsc = o.md_timestamp;
  active = true;
}

abbrev pub sending : OrderGateway → ℕ → OrderRequest → RiskGate → OrderGateway
sending g send_t o risk = record g {
  risk = risk;
  inflight = set g.inflight (slot g o.order_id) (recorded o send_t);
  sent = inc64 g.sent;
}

send-accept :
    (g : OrderGateway) (kill : Bool) (t0 send_t : ℕ) (o : OrderRequest)
    → is_accept (check g.risk kill t0 o).1 ≡ true
    → send g kill t0 send_t o ≡ (sending g send_t o (check g.risk kill t0 o).0, some o)
unfolding send
send-accept g kill t0 send_t o ok = rw ok refl

-- A denied order leaves the table alone.
abbrev pub denying : OrderGateway → RiskGate → OrderGateway
denying g risk = record g { risk = risk; risk_rejected = inc64 g.risk_rejected }

pub send-deny :
    (g : OrderGateway) (kill : Bool) (t0 send_t : ℕ) (o : OrderRequest)
    → is_accept (check g.risk kill t0 o).1 ≡ false
    → send g kill t0 send_t o ≡ (denying g (check g.risk kill t0 o).0, none)
unfolding send
send-deny g kill t0 send_t o denied = rw denied refl

-- What a report for the order just sent does, and what a second one does.
fill_twice :
    (g : OrderGateway) (send_t : ℕ) (o : OrderRequest) (risk : RiskGate) (rep again : ExecReport)
    → Sized g
    → rep.order_id ≡ o.order_id
    → again.order_id ≡ o.order_id
    → let out = sending g send_t o risk in
      let first = handle_fill out rep in
      (first.1 ≡ rep ∷ [])
      × (first.0.risk ≡ Risk.on_fill risk rep)
      × (handle_fill first.0 again ≡ (missed first.0, []))
unfolding slot
fill_twice g send_t o risk rep again sz e e' =
    rw (handle_fill-hit (sending g send_t o risk) rep hit)
      (refl, refl, handle_fill-miss _ again gone)
  where
    stored : entry (sending g send_t o risk) rep.order_id ≡ (recorded o send_t)
    stored = ap (entry (sending g send_t o risk)) e ∙ entry-set g o.order_id (recorded o send_t) sz

    hit : matches (entry (sending g send_t o risk) rep.order_id) rep ≡ true
    hit = ap (λ s. matches s rep) stored ∙ (==_iff o.order_id rep.order_id).1 (sym e)

    cleared :
        entry
          (settled (sending g send_t o risk) rep (entry (sending g send_t o risk) rep.order_id))
          again.order_id
        ≡ (record (entry (sending g send_t o risk) rep.order_id) { active = false })
    cleared =
        ap
          (entry
            (settled (sending g send_t o risk) rep (entry (sending g send_t o risk) rep.order_id)))
          (e' ∙ sym e)
        ∙ entry-set (sending g send_t o risk) rep.order_id
            (record (entry (sending g send_t o risk) rep.order_id) { active = false })
            (length-set g.inflight _ (recorded o send_t) ∙ sz)

    gone :
        matches
          (entry
            (settled (sending g send_t o risk) rep (entry (sending g send_t o risk) rep.order_id))
            again.order_id)
          again
        ≡ false
    gone = ap (λ s. matches s again) cleared

-- An order that the gate accepts goes to the wire. If the next report names it, that report is
-- passed on to the strategy and moves the position of the gate; if the report after that names it
-- again, it is counted as unmatched, is passed on to no one and leaves the position alone. The
-- table has its full size.
pub send-handle_fill :
    (g : OrderGateway) (kill : Bool) (t0 send_t : ℕ) (o : OrderRequest) (rep again : ExecReport)
    → Sized g
    → is_accept (check g.risk kill t0 o).1 ≡ true
    → rep.order_id ≡ o.order_id
    → again.order_id ≡ o.order_id
    → let out = send g kill t0 send_t o in
      let first = handle_fill out.0 rep in
      let second = handle_fill first.0 again in
      (out.1 ≡ some o)
      × (first.1 ≡ rep ∷ [])
      × (first.0.risk ≡ Risk.on_fill (check g.risk kill t0 o).0 rep)
      × (second.0 ≡ missed first.0)
      × (second.1 ≡ [])
send-handle_fill g kill t0 send_t o rep again sz ok e e' =
    let (passed_on, moved, ignored) =
      fill_twice g send_t o (check g.risk kill t0 o).0 rep again sz e e' in
    rw (send-accept g kill t0 send_t o ok)
      (refl, passed_on, moved, ap (λ r. r.0) ignored, ap (λ r. r.1) ignored)
