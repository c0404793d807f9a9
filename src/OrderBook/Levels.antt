-- ===== src/OrderBook/Levels.antt =====
-- The level map of a side: reads and writes past levels of other prices.
use multithreaded_exchange_s.Prelude.Int.{eqb_ℤ, eqb_ℤ_iff, ℤ}
use multithreaded_exchange_s.OrderBook.{Locator, find_level, set_level, unindex}
use multithreaded_exchange_s.Prelude.{
  ℕ, ◌≡◌, refl, ap, true, false, some, List, [], ◌∷◌, ◌++◌, arith, All,
}
use multithreaded_exchange_s.PriceLevel.{PriceLevel}

-- No level of the list has the price.
abbrev pub Apart : ℤ → List PriceLevel → Type 0
Apart p = All (λ m. eqb_ℤ m.price p ≡ false)

-- No two levels have one price.
abbrev pub Distinct : List PriceLevel → Type 0
Distinct [] = Unit
Distinct (l ∷ ls) = Apart l.price ls × Distinct ls

pub eqb_ℤ_refl : (p : ℤ) → eqb_ℤ p p ≡ true
eqb_ℤ_refl p = ground arith

pub eqb_ℤ_sym : (p q : ℤ) → eqb_ℤ p q ≡ false → eqb_ℤ q p ≡ false
eqb_ℤ_sym p q h = ground arith

pub find_level-past :
    (p : ℤ) (pre : List PriceLevel) (l : PriceLevel) (ls : List PriceLevel)
    → Apart p pre
    → l.price ≡ p
    → find_level p (pre ++ l ∷ ls) ≡ some l
unfolding find_level
find_level-past p [] l ls h e = rw ((eqb_ℤ_iff l.price p).1 e)
find_level-past p (m ∷ pre) l ls h e = rw h.0 (find_level-past p pre l ls h.1 e)

pub set_level-past :
    (p : ℤ) (pre : List PriceLevel) (l n : PriceLevel) (ls : List PriceLevel)
    → Apart p pre
    → l.price ≡ p
    → set_level p n (pre ++ l ∷ ls) ≡ pre ++ n ∷ ls
unfolding set_level
set_level-past p [] l n ls h e = rw ((eqb_ℤ_iff l.price p).1 e)
set_level-past p (m ∷ pre) l n ls h e = rw h.0 (ap (◌∷◌ m) (set_level-past p pre l n ls h.1 e))

unfoldable pub unindex_all : List ℕ → List (ℕ × Locator) → List (ℕ × Locator)
unindex_all [] m = m
unindex_all (i ∷ is) m = unindex_all is (unindex i m)

pub unindex_all-append :
    (is js : List ℕ) (m : List (ℕ × Locator))
    → unindex_all (is ++ js) m ≡ unindex_all js (unindex_all is m)
unfolding unindex_all
unindex_all-append [] js m = refl
unindex_all-append (i ∷ is) js m = unindex_all-append is js (unindex i m)
