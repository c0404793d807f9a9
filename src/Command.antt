-- ===== src/Command.antt =====
-- core/command.hpp, core/apply.hpp and core/apply.cpp: the commands, and the one path on which they
-- reach a book. A SubmitCommand owns its order, which those that build one never leave null.
use multithreaded_exchange_s.Prelude.Int.{ℤ}
use multithreaded_exchange_s.Order.{Order}
use multithreaded_exchange_s.Book
use multithreaded_exchange_s.Book.{InvalidOrder, Submitted}
use multithreaded_exchange_s.Book.Types.{Book, Fill, ModifyStatus}
use multithreaded_exchange_s.OrderBook.{is_none}
use multithreaded_exchange_s.Prelude.{ℕ, Bool, true, false, not, Option, some, List, [], ◌∷◌, ◌>>=◌}

pub data Command : Type 0 where
  submit : Order → Command
  cancel : ℕ → Command
  modify : ℕ → ℕ → Option ℤ → Command

pub record ApplyOutcome : Type 0 where
  pub fills : List Fill
  pub accepted : Bool
  pub resting_qty : ℕ

-- What applyCommand does: it throws what the book throws, which is left as it was, or returns.
pub data Applied : Type 0 where
  refused : InvalidOrder → Applied
  applied : ApplyOutcome → Book → Applied

abbrev pub from_submit : Submitted → Applied
from_submit (Submitted.thrown e) = Applied.refused e
from_submit (Submitted.returned r b) =
    Applied.applied (record { fills = r.fills; accepted = true; resting_qty = r.resting_qty }) b

abbrev pub is_accepted : ModifyStatus → Bool
is_accepted ModifyStatus.not_found = false
is_accepted ModifyStatus.rejected = false
is_accepted ModifyStatus.amended_in_place = true
is_accepted ModifyStatus.requeued = true

unfoldable pub apply_command : Book → Command → Option Applied
apply_command b (Command.submit o) = Book.submit b (some o) >>= λ s. some (from_submit s)
apply_command b (Command.cancel id) = Book.cancel id b >>= λ out.
    some (
      Applied.applied (record { fills = []; accepted = not (is_none out.0); resting_qty = 0 })
        out.1)
apply_command b (Command.modify id quantity price) = Book.modify b id quantity price >>= λ out.
    some (
      Applied.applied
        (record {
          fills = out.0.fills;
          accepted = is_accepted out.0.status;
          resting_qty = out.0.resting_qty;
        })
        out.1)

-- The book that a history of commands leaves: a refused one leaves it as it was.
abbrev pub applied_book : Book → Applied → Book
applied_book b (Applied.refused x) = b
applied_book b (Applied.applied o after) = after

unfoldable pub history : List Command → Book → Option Book
history [] b = some b
history (c ∷ cs) b = apply_command b c >>= λ a. history cs (applied_book b a)
