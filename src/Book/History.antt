-- ===== src/Book/History.antt =====
-- Whole message histories of `BookView`, and what its top-of-book queries then answer.
use mathlib.Core.Path.{fun_ext}
use high_frequency_trading_e.Prelude.{
  ℕ, ◌≤◌, ◌<◌, ◌≡◌, ◌≢◌, refl, ◌∙◌, ap, ap₂, inl, inr, Bool, true, false, List, [], ◌∷◌, Option,
  arith, ltb, ltb→lt, Bool-cases, ◌==◌, if◌then◌else◌, get_or_past, get_or-replicate,
}
use high_frequency_trading_e.Prelude.Int.{ℤ, pos, negsuc, ◌-ℤ◌, div_trunc, to_int32}
use high_frequency_trading_e.Wire.{MsgType, ItchMessage, to_msg_type, is_buy}
use high_frequency_trading_e.Book.{
  BookView, new, max_level_size, on_size_increased, on_level_emptied, set_level, add_size,
  reduce_size, delete_level, apply_at, apply_index, apply, to_index, has_bid, has_ask,
  best_bid_size, best_ask_size,
}
use high_frequency_trading_e.Book.Top.{IsBestBid, IsBestAsk}
use high_frequency_trading_e.Book.Invariant.{IsValid, new-IsValid, apply-IsValid}
use high_frequency_trading_e.Book.Reference.{Ladder, window, ladder_apply, levels, apply_refines}

-- The messages of a feed, in order.
unfoldable pub run : BookView → List ItchMessage → BookView
run b [] = b
run b (m ∷ ms) = run (apply b m) ms

-- Every size is a `uint32_t`.
abbrev pub SizesFit : List ItchMessage → Type 0
SizesFit [] = Unit {0}
SizesFit (m ∷ ms) = (m.size ≤ max_level_size) × SizesFit ms

pub run_from-IsValid :
    (b : BookView) (ms : List ItchMessage) → IsValid b → SizesFit ms → IsValid (run b ms)
unfolding run
run_from-IsValid b [] v fit = v
run_from-IsValid b (m ∷ ms) v fit = run_from-IsValid (apply b m) ms (apply-IsValid m v fit.0) fit.1

-- From an empty book every sequence of messages whose sizes fit 32 bits leads to a valid book: the
-- arrays keep their length and range, and each cached best index is that of the best level that holds
-- anything, or says that there is none.
pub run-IsValid :
    (ticks : ℕ) (base tick : ℤ) (ms : List ItchMessage)
    → SizesFit ms
    → IsValid (run (new ticks base tick) ms)
run-IsValid ticks base tick ms fit = run_from-IsValid _ ms (new-IsValid ticks base tick) fit

-- The fields that no message changes.
abbrev frame : BookView → ℕ × ℤ × ℤ
frame b = (b.ticks, b.base, b.tick)

frame-touch :
    (b : BookView) (s : Bool) (i v : ℕ)
    → (frame (on_size_increased (set_level b s i v) s i) ≡ frame b)
      × (frame (on_level_emptied (set_level b s i v) s i) ≡ frame b)
      × (frame (set_level b s i v) ≡ frame b)
unfolding on_size_increased on_level_emptied
frame-touch b true i v = ground arith
frame-touch b false i v = ground arith

frame-if :
    (c : Bool) (x y b : BookView)
    → frame x ≡ frame b
    → frame y ≡ frame b
    → frame (if c then x else y) ≡ frame b
frame-if true x y b ex ey = ex
frame-if false x y b ex ey = ey

frame-apply_at :
    (b : BookView) (t : MsgType) (s : Bool) (i size : ℕ) → frame (apply_at b t s i size) ≡ frame b
unfolding apply_at add_size reduce_size delete_level
frame-apply_at b MsgType.add s i size = frame-if (size == 0) b _ b refl (frame-touch b s i _).0
frame-apply_at b MsgType.execute s i size =
    frame-if _ _ _ b (frame-touch b s i _).1 (frame-touch b s i _).2
frame-apply_at b MsgType.cancel s i size =
    frame-if _ _ _ b (frame-touch b s i _).1 (frame-touch b s i _).2
frame-apply_at b MsgType.delete s i size = (frame-touch b s i 0).1
frame-apply_at b MsgType.trade s i size = refl
frame-apply_at b MsgType.unknown s i size = refl

frame-apply_index : (b : BookView) (m : ItchMessage) (i : ℤ) → frame (apply_index b m i) ≡ frame b
unfolding apply_index
frame-apply_index b m (negsuc k) = refl
frame-apply_index b m (pos i) =
    ground (arith, frame-apply_at b (to_msg_type m.type_byte) (is_buy m.side) i m.size)

frame-apply : (b : BookView) (m : ItchMessage) → frame (apply b m) ≡ frame b
unfolding apply
frame-apply b m = frame-apply_index b m (to_index b m.price)

-- Where a price falls, by the parameters of the book alone.
abbrev pub slot : ℕ → ℤ → ℤ → ℤ → Option ℕ
slot ticks base tick price = window ticks (to_int32 (div_trunc (price -ℤ base) tick))

-- The reference book after the same messages.
unfoldable pub ladder_run : (ℤ → Option ℕ) → Ladder → List ItchMessage → Ladder
ladder_run slot_of l [] = l
ladder_run slot_of l (m ∷ ms) = ladder_run slot_of (ladder_apply l (slot_of m.price) m) ms

abbrev pub empty_ladder : Ladder
empty_ladder s j = 0

abbrev slot_by : ℕ × ℤ × ℤ → ℤ → Option ℕ
slot_by (ticks, base, tick) = slot ticks base tick

slot-apply : (b : BookView) (m : ItchMessage) → slot_by (frame (apply b m)) ≡ slot_by (frame b)
slot-apply b m = ap slot_by (frame-apply b m)

levels-apply :
    (b : BookView) (m : ItchMessage)
    → IsValid b
    → m.size ≤ max_level_size
    → levels (apply b m) ≡ ladder_apply (levels b) (slot_by (frame b) m.price) m
unfolding to_index
levels-apply b m v small = fun_ext λ s. fun_ext λ j. apply_refines m s j v small

levels-run :
    (b : BookView) (ms : List ItchMessage)
    → IsValid b
    → SizesFit ms
    → levels (run b ms) ≡ ladder_run (slot_by (frame b)) (levels b) ms
unfolding run ladder_run
levels-run b [] v fit = refl
levels-run b (m ∷ ms) v fit =
    levels-run (apply b m) ms (apply-IsValid m v fit.0) fit.1
    ∙ ap₂ (λ f l. ladder_run f l ms) (slot-apply b m) (levels-apply b m v fit.0)

levels-new : (ticks : ℕ) (base tick : ℤ) → levels (new ticks base tick) ≡ empty_ladder
unfolding new
levels-new ticks base tick = fun_ext λ s. fun_ext λ j. zero_level s j
  where
    zero_level : (s : Bool) (j : ℕ) → levels (new ticks base tick) s j ≡ 0
    zero_level true j = get_or-replicate ticks j 0
    zero_level false j = get_or-replicate ticks j 0

-- After any messages whose sizes fit 32 bits the arrays hold, level by level, what the reference book
-- holds after them: a map from side and level to a size, to which messages add with saturation at
-- 2 ^ 32 - 1, from which they take down to 0, and whose levels they delete.
pub run_refines :
    (ticks : ℕ) (base tick : ℤ) (ms : List ItchMessage)
    → SizesFit ms
    → levels (run (new ticks base tick) ms) ≡ ladder_run (slot ticks base tick) empty_ladder ms
run_refines ticks base tick ms fit =
    levels-run _ ms (new-IsValid ticks base tick) fit
    ∙ ap₂ (λ f l. ladder_run f l ms) (unfold new in refl) (levels-new ticks base tick)

-- What the queries of one side answer: nothing rests there, or `i` is the best level.
pub data BidTouch (b : BookView) : Type 0 where
  no_bid : has_bid b ≡ false → best_bid_size b ≡ 0 → ((j : ℕ) → levels b true j ≡ 0) → BidTouch b
  bid_at :
      (i : ℕ)
      → has_bid b ≡ true
      → best_bid_size b ≡ levels b true i
      → levels b true i ≢ 0
      → i < b.ticks
      → ((j : ℕ) → i < j → levels b true j ≡ 0)
      → BidTouch b

pub data AskTouch (b : BookView) : Type 0 where
  no_ask : has_ask b ≡ false → best_ask_size b ≡ 0 → ((j : ℕ) → levels b false j ≡ 0) → AskTouch b
  ask_at :
      (i : ℕ)
      → has_ask b ≡ true
      → best_ask_size b ≡ levels b false i
      → levels b false i ≢ 0
      → i < b.ticks
      → ((j : ℕ) → j < i → levels b false j ≡ 0)
      → AskTouch b

module _ (b : BookView) (v : IsValid b) where
  BidTouch-at : (best : ℤ) → b.best_bid_idx ≡ best → IsBestBid b.bid best → BidTouch b
  unfolding has_bid best_bid_size
  BidTouch-at (negsuc k) e top = no_bid (rw e (ground arith)) (rw e (ground arith)) top.1
  BidTouch-at (pos i) e top =
      bid_at i (rw e (ground arith)) (rw e (ground arith)) top.0 within top.1
    where
      within : i < b.ticks
      within = ground (arith, get_or_past b.bid i 0, v.bid_length, top.0)

  AskTouch-at : (best : ℤ) → b.best_ask_idx ≡ best → IsBestAsk b.ask b.ticks best → AskTouch b
  unfolding has_ask best_ask_size
  AskTouch-at (negsuc k) e top = absurd top
  AskTouch-at (pos i) e top = elim (Bool-cases (ltb i b.ticks)) [
    | inl within ↦
        ask_at i (rw e (ground arith)) (rw e (ground arith)) (top.1 (ltb→lt _ _ within))
          (ltb→lt _ _ within) top.2
    | inr past ↦
        no_ask (rw e (ground arith)) (rw e (ground arith))
          λ j. ground (arith, get_or_past b.ask j 0, v.ask_length, top.2 j)
  ]

  -- Top of book is right in a valid book: `has_bid` and `has_ask` tell whether their side holds anything, and if so
  -- the best size is that of the highest bid level, or of the lowest ask level, and is not zero.
  pub touch_lem : BidTouch b × AskTouch b
  touch_lem =
      (BidTouch-at b.best_bid_idx refl v.best_bid, AskTouch-at b.best_ask_idx refl v.best_ask)
