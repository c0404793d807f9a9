-- ===== src/Types.antt =====
-- core/types.hpp: sides of the market and the two price orderings. A price is an integer number of
-- ticks; a quantity, an id and a sequence number are native numbers below 2 ^ 64.
use multithreaded_exchange_s.Prelude.{ℕ, Bool}
use multithreaded_exchange_s.Prelude.Int.{ℤ, ltb_ℤ}

pub data Side : Type 0 where
  buy sell : Side

unfoldable pub opposite : Side → Side
opposite Side.buy = Side.sell
opposite Side.sell = Side.buy

-- BidOrdering for the buy side, AskOrdering for the sell side: does the first price come first?
abbrev pub before : Side → ℤ → ℤ → Bool
before Side.buy a b = ltb_ℤ b a
before Side.sell a b = ltb_ℤ a b

-- The byte of a side, as `static_cast` gives it.
abbrev pub side_code : Side → ℕ
side_code Side.buy = 0
side_code Side.sell = 1
