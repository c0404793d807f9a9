-- ===== src/Tests/Parts.antt =====
-- The theorems on orders, levels, sides and messages at concrete values.
use multithreaded_exchange_s.Tests.{
  sell_hidden-IsLive, offered-BookOk, sell_five, sell_hidden, offers,
}
use multithreaded_exchange_s.PriceLevel.Aggregates.{LevelStep, LevelStep-IsSummed, IsSummed}
use multithreaded_exchange_s.Order.{display_size, on_partial_fill, clone_amended, visible_qty}
use multithreaded_exchange_s.Prelude.Word.{sub64}
use multithreaded_exchange_s.Protocol.RoundTrip.{decode-encode_client, decode-encode_server}
use multithreaded_exchange_s.Queue.{set_node, find_node}
use multithreaded_exchange_s.Protocol.{
  protocol_version, encode_client, encode_server, ClientMessage, ServerMessage,
  decode_client_message, decode_server_message,
}
use multithreaded_exchange_s.Order.Lifecycle.{
  clone_amended-IsAmended, IsAmended, on_partial_fill-FillEffect, FillEffect,
}
use multithreaded_exchange_s.Wire.{ok, emit}
use multithreaded_exchange_s.Types.{Side}
use multithreaded_exchange_s.PriceLevel.{apply_fill, PriceLevel}
use multithreaded_exchange_s.Prelude.Int.{negsuc, pos}
use multithreaded_exchange_s.Prelude.{
  ◌-◌, ◌≡◌, refl, some, [], ◌∷◌, ◌++◌, arith, length, take, drop,
}

on_partial_fill-FillEffect_example : FillEffect sell_hidden 3 (on_partial_fill sell_hidden 3)
unfolding visible_qty
on_partial_fill-FillEffect_example =
    on_partial_fill-FillEffect sell_hidden 3 sell_hidden-IsLive (omega arith)

clone_amended-IsAmended_example :
    IsAmended sell_hidden 20 (pos 100) (clone_amended sell_hidden 20 (pos 100))
clone_amended-IsAmended_example =
    clone_amended-IsAmended sell_hidden 20 (pos 100) sell_hidden-IsLive (omega arith) (omega arith)

offers-IsSummed : IsSummed offers
offers-IsSummed = offered-BookOk.asks.levels.0.summed

abbrev offers_less_three : PriceLevel
offers_less_three = record {
  price = pos 101;
  orders =
      record sell_five { sequence = 1; remaining = 2 } ∷ record sell_hidden { sequence = 2 } ∷ [];
  total_qty = 14;
  visible_qty = 6;
}

three_filled : LevelStep offers offers_less_three
unfolding visible_qty apply_fill find_node set_node on_partial_fill sub64 display_size
three_filled =
    LevelStep.fills 1 3 (record sell_five { sequence = 1 }) offers_less_three refl
      (record {
        shows = omega arith;
        shown = omega arith;
        refills = omega arith;
        fits = omega arith;
      })
      (omega arith) refl

LevelStep-IsSummed_example : IsSummed offers_less_three
LevelStep-IsSummed_example = LevelStep-IsSummed three_filled offers-IsSummed

abbrev new_terms : ClientMessage
new_terms = ClientMessage.modify_order 7 900 (some (negsuc 4))

decode-encode_client_example :
    (decode_client_message 3 (drop 6 (encode_client new_terms)) ≡ ok new_terms)
    × (take 6 (encode_client new_terms)
        ≡ emit (length (encode_client new_terms) - 4) 0 4 ++ (protocol_version ∷ 3 ∷ []))
decode-encode_client_example =
    decode-encode_client new_terms (omega arith, omega arith, (omega arith, omega arith))

abbrev trade : ServerMessage
trade = ServerMessage.filled 7 8 (negsuc 4) 900 Side.sell

decode-encode_server_example :
    (decode_server_message 18 (drop 6 (encode_server trade)) ≡ ok trade)
    × (take 6 (encode_server trade)
        ≡ emit (length (encode_server trade) - 4) 0 4 ++ (protocol_version ∷ 18 ∷ []))
decode-encode_server_example =
    decode-encode_server trade (omega arith, omega arith, (omega arith, omega arith), omega arith)
