-- ===== src/Server.antt =====
-- net/server.cpp: from a decoded message to a command of the engine. The threads, the sockets and the
-- table of sessions are not modelled.
pub mod Admission
use multithreaded_exchange_s.Prelude.{
  ℕ, zero, suc, ◌+◌, ◌-◌, ◌*◌, ◌/◌, ◌%◌, ◌^◌, ◌≤◌, ◌<◌, min, ◌≡◌, refl, sym, ap, ap₂, subst, ◌∙◌,
  ◌≢◌, ◌↔◌, ◌⊎◌, inl, inr, Bool, true, false, not, ◌&&◌, ◌||◌, Option, none, some, List, [], ◌∷◌,
  ◌++◌, map, append-nil, append_assoc, arith, ltb, leb, ◌==◌, if◌then◌else◌, ltb→lt, lt→ltb, ==_iff,
  Bool-cases, Option-cases, length, take, drop, length-append, take-append, drop-append, All,
  All-append, All-of, All-map, ◌>>=◌, precondition,
}
use multithreaded_exchange_s.Engine
use multithreaded_exchange_s.Order.{make_iceberg, make_market, Order, make_limit}
use multithreaded_exchange_s.Prelude.Int.{ℤ}
use multithreaded_exchange_s.Protocol.{RejectReason, ClientMessage, OrderKind, ServerMessage}
use multithreaded_exchange_s.Types.{Side, opposite}
use multithreaded_exchange_s.Command.{Command}
use multithreaded_exchange_s.Engine.{Engine}
use multithreaded_exchange_s.Book.Types.{Fill}

-- What buildOrder does: it returns an order, or throws InvalidOrderError. The kinds are the three that
-- the decoder lets through.
pub data Built : Type 0 where
  built : Order → Built
  no_quantity no_display : Built

abbrev pub build_kind : OrderKind → ℕ → ℕ → Side → ℤ → ℕ → ℕ → Built
build_kind OrderKind.limit id account side price quantity display =
    Built.built (make_limit id side account quantity price)
build_kind OrderKind.market id account side price quantity display =
    Built.built (make_market id side account quantity)
build_kind OrderKind.iceberg id account side price quantity display =
    if display == 0
    then Built.no_display
    else Built.built (make_iceberg id side account quantity price display)

unfoldable pub build_order : ℕ → ℕ → Side → OrderKind → ℤ → ℕ → ℕ → Built
unfolding make_limit make_market make_iceberg
build_order id account side kind price quantity display =
    if quantity == 0
    then Built.no_quantity
    else build_kind kind id account side price quantity display

-- The command that the visitor of dispatch submits; none where it throws InvalidOrderError.
abbrev pub submitted : Built → Option Command
submitted (Built.built o) = some (Command.submit o)
submitted Built.no_quantity = none
submitted Built.no_display = none

unfoldable pub command_of : ClientMessage → Option Command
unfolding build_order
command_of (ClientMessage.new_order id account side kind price quantity display) =
    submitted (build_order id account side kind price quantity display)
command_of (ClientMessage.cancel_order id) = some (Command.cancel id)
command_of (ClientMessage.modify_order id quantity price) = some (Command.modify id quantity price)

-- The id that a message is rejected under.
abbrev pub order_id : ClientMessage → ℕ
order_id (ClientMessage.new_order id account side kind price quantity display) = id
order_id (ClientMessage.cancel_order id) = id
order_id (ClientMessage.modify_order id quantity price) = id

-- What follows the submit to the engine: nothing, or a message for the client.
abbrev pub reply : ℕ → Bool → Option ServerMessage
reply id true = none
reply id false = some (ServerMessage.rejected id RejectReason.overloaded)

abbrev pub after_submit : {L : Type 0} → ℕ → Bool × Engine L → Option ServerMessage × Engine L
after_submit id (accepted, e) = (reply id accepted, e)

abbrev pub dispatched :
    {L : Type 0} → ℕ → Option Command → Engine L → Option (Option ServerMessage × Engine L)
dispatched id none e = some (some (ServerMessage.rejected 0 RejectReason.invalid_order), e)
dispatched id (some c) e = Engine.submit c e >>= λ out. some (after_submit id out)

-- dispatch but for the account's entry: the answer to the client, if any, and the engine. `none` waits
-- in `submit` for room in the queue.
unfoldable pub dispatch :
    {L : Type 0} → ClientMessage → Engine L → Option (Option ServerMessage × Engine L)
unfolding command_of
dispatch m e = dispatched (order_id m) (command_of m) e

-- The two messages that publishFill makes.
unfoldable pub to_aggressor : Fill → ServerMessage
to_aggressor f =
    ServerMessage.filled f.aggressor_id f.resting_id f.price f.quantity f.aggressor_side

unfoldable pub to_resting : Fill → ServerMessage
to_resting f =
    ServerMessage.filled f.resting_id f.aggressor_id f.price f.quantity (opposite f.aggressor_side)
