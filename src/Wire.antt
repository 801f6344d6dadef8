-- ===== src/Wire.antt =====
-- include/hft/itch_message.hpp and include/hft/order_msg.hpp: the enumerations and structs that
-- the stages exchange. An enumeration's raw byte stays a byte in the structs, as in the source, and
-- is read by a cast where the source casts it.
pub mod Codec
pub mod Symbol
use high_frequency_trading_e.Prelude.{ℕ, ◌==◌, if◌then◌else◌, Bool}
use high_frequency_trading_e.Prelude.Int.{ℤ}

pub data MsgType : Type 0 where
  unknown add execute cancel delete trade : MsgType

-- `static_cast<MsgType>`: a byte that is no enumerator is handled by the `default` of each switch,
-- as `kUnknown` is.
abbrev pub to_msg_type : ℕ → MsgType
to_msg_type b =
    if b == b'A'
    then MsgType.add
    else if b == b'E'
    then MsgType.execute
    else if b == b'X'
    then MsgType.cancel
    else if b == b'D'
    then MsgType.delete
    else if b == b'P'
    then MsgType.trade
    else MsgType.unknown

abbrev pub msg_type_byte : MsgType → ℕ
msg_type_byte MsgType.unknown = 0
msg_type_byte MsgType.add = b'A'
msg_type_byte MsgType.execute = b'E'
msg_type_byte MsgType.cancel = b'X'
msg_type_byte MsgType.delete = b'D'
msg_type_byte MsgType.trade = b'P'

pub data Side : Type 0 where
  none buy sell : Side

abbrev pub side_byte : Side → ℕ
side_byte Side.none = 0
side_byte Side.buy = b'B'
side_byte Side.sell = b'S'

-- `x == static_cast<std::uint8_t>(Side::kBuy)`, the only test of a side byte in the source.
abbrev pub is_buy : ℕ → Bool
is_buy b = b == b'B'

-- 10'000 units to one unit of the quote currency.
abbrev pub price_scale : ℕ
price_scale = 10_000

pub record ItchMessage : Type 0 where
  pub timestamp : ℕ
  pub price : ℤ
  pub symbol : ℕ
  pub size : ℕ
  pub seq : ℕ
  pub type_byte : ℕ
  pub side : ℕ
  pub flags : ℕ

pub data OrderAction : Type 0 where
  new cancel : OrderAction

abbrev pub order_action_byte : OrderAction → ℕ
order_action_byte OrderAction.new = b'N'
order_action_byte OrderAction.cancel = b'C'

pub data ExecStatus : Type 0 where
  ack filled partial rejected canceled : ExecStatus

abbrev pub exec_status_byte : ExecStatus → ℕ
exec_status_byte ExecStatus.ack = b'A'
exec_status_byte ExecStatus.filled = b'F'
exec_status_byte ExecStatus.partial = b'P'
exec_status_byte ExecStatus.rejected = b'R'
exec_status_byte ExecStatus.canceled = b'X'

pub record OrderRequest : Type 0 where
  pub order_id : ℕ
  pub md_timestamp : ℕ
  pub price : ℤ
  pub symbol : ℕ
  pub size : ℕ
  pub side : ℕ
  pub action : ℕ
  pub flags : ℕ
  pub pad : ℕ

pub record ExecReport : Type 0 where
  pub order_id : ℕ
  pub md_timestamp : ℕ
  pub fill_price : ℤ
  pub symbol : ℕ
  pub fill_size : ℕ
  pub side : ℕ
  pub status : ℕ
  pub flags : ℕ
  pub pad : ℕ

-- include/hft/feed_handler.hpp: a message with the feed handler's arrival stamp.
pub record MdEvent : Type 0 where
  pub msg : ItchMessage
  pub arrival_tsc : ℕ
