-- ===== src/Tests/Log.antt =====
-- The theorems on the write-ahead log and the recovery at a log of a few records.
use multithreaded_exchange_s.Prelude.Int.{pos, negsuc}
use multithreaded_exchange_s.Protocol.{OrderKind}
use multithreaded_exchange_s.Types.{Side}
use multithreaded_exchange_s.Recovery.Storable.{build_order-decode_record}
use multithreaded_exchange_s.Order.{make_iceberg, resting_price, display_size}
use multithreaded_exchange_s.Server.{build_order}
use multithreaded_exchange_s.WriteAheadLog.{
  append, Wrote, replay, SyncPolicy, write_fully, WriteAheadLog,
}
use multithreaded_exchange_s.Prelude.{
  take-drop, length-drop, ℕ, ◌<◌, ◌≡◌, refl, ap, false, some, List, [], ◌∷◌, ◌++◌, arith, length,
  take, drop, ◌>>=◌,
}
use multithreaded_exchange_s.WriteAheadLog.Append.{append-Appends, Appends}
use multithreaded_exchange_s.Recovery.History.{recover-recover_book_only, compared}
use multithreaded_exchange_s.WriteAheadLog.Replay.{
  TornTail, replay-encode_all, stored_all, encode_all,
}
use multithreaded_exchange_s.WalRecord.{encode_payload, ReadResult, decode_record, encode_record}
use multithreaded_exchange_s.Recovery.{recover_book_only, recover}
use multithreaded_exchange_s.WriteAheadLog.Write.{write_fully-Writes, Writes}
use multithreaded_exchange_s.WalRecord.Torn.{
  length-record_bytes, decode-encode_record, decode-torn, encode_record-bytes,
}
use multithreaded_exchange_s.Tests.{offered, sell_hidden}
use multithreaded_exchange_s.Tests.Run.{commands}
use multithreaded_exchange_s.Command.{Command}
use multithreaded_exchange_s.WriteAheadLog.Valid.{replay-Replays, Replays}

-- A command that a record keeps, and a record cut in its header.
abbrev moved : Command
moved = Command.modify 7 900 (some (negsuc 4))

abbrev hidden_submit : Command
hidden_submit = Command.submit (record sell_hidden { sequence = 0 })

decode-encode_record_example :
    decode_record (encode_record 5 moved ++ 1 ∷ 2 ∷ [])
    ≡ ReadResult.read_ok (record { sequence = 5; command = moved }) (length (encode_record 5 moved))
decode-encode_record_example =
    decode-encode_record 5 moved (1 ∷ 2 ∷ []) (omega arith)
      (omega arith, omega arith, (omega arith, omega arith))

two_more : take 2 (encode_record 5 moved) ++ drop 2 (encode_record 5 moved) ≡ encode_record 5 moved
two_more = take-drop 2 (encode_record 5 moved)

some_left : 0 < length (drop 2 (encode_record 5 moved))
some_left = omega (
  arith,
  length-drop 2 (encode_record 5 moved),
  ap length (encode_record-bytes 5 moved),
  length-record_bytes (encode_payload 5 moved),
)

decode-torn_example : decode_record (take 2 (encode_record 5 moved)) ≡ ReadResult.incomplete
decode-torn_example =
    decode-torn (take 2 (encode_record 5 moved)) (drop 2 (encode_record 5 moved)) 5 moved some_left
      two_more

-- A short write, an interruption, and a device that is full.
write_fully-Writes_example :
    Writes (1 ∷ 2 ∷ 3 ∷ []) (9 ∷ []) (
      write_fully
        (Wrote.wrote 2 ∷ Wrote.interrupted ∷ Wrote.refused ∷ [])
        (1 ∷ 2 ∷ 3 ∷ [])
        (9 ∷ []))
write_fully-Writes_example =
    write_fully-Writes (Wrote.wrote 2 ∷ Wrote.interrupted ∷ Wrote.refused ∷ []) (1 ∷ 2 ∷ 3 ∷ [])
      (9 ∷ [])

-- A log that syncs each record, whose first fdatasync fails.
abbrev unsynced_log : WriteAheadLog
unsynced_log = record {
  file = [];
  policy = SyncPolicy.always;
  batch_records = 64;
  next_sequence = 1;
  records_written = 0;
  sync_count = 0;
  since_sync = 0;
  answers = record { writes = Wrote.wrote 3 ∷ []; interval_over = false; syncs = false } ∷ [];
}

append-Appends_example : Appends moved unsynced_log (append moved unsynced_log)
append-Appends_example = append-Appends moved unsynced_log

abbrev cut : List ℕ
cut = take 2 (encode_record 5 moved)

replay-encode_all_example :
    replay (encode_all 3 (hidden_submit ∷ moved ∷ []) ++ [])
    ≡ some (record {
      records = stored_all 3 (hidden_submit ∷ moved ∷ []);
      valid_bytes = length (encode_all 3 (hidden_submit ∷ moved ∷ []));
      truncated = false;
    })
unfolding display_size resting_price
replay-encode_all_example =
    replay-encode_all 3 (hidden_submit ∷ moved ∷ []) [] false
      (
        (omega arith, omega arith, (omega arith, omega arith), omega arith, omega arith),
        ((omega arith, omega arith, (omega arith, omega arith)), tt),
      )
      (omega arith) TornTail.nothing

replay-Replays_example : Replays (encode_record 5 moved ++ 0 ∷ 0 ∷ [])
replay-Replays_example = replay-Replays (encode_record 5 moved ++ 0 ∷ 0 ∷ [])

recover-recover_book_only_example :
    (recover 4 (encode_all 1 commands) offered >>= λ out. some (compared out))
    ≡ (recover_book_only (encode_all 1 commands) offered >>= λ out. some (compared out))
recover-recover_book_only_example = recover-recover_book_only 4 (encode_all 1 commands) offered

build_order-decode_record_example :
    decode_record (encode_record 5 hidden_submit ++ 1 ∷ [])
    ≡ ReadResult.read_ok
        (record { sequence = 5; command = hidden_submit })
        (length (encode_record 5 hidden_submit))
unfolding build_order make_iceberg
build_order-decode_record_example =
    build_order-decode_record 2 30 Side.sell OrderKind.iceberg (pos 101) 12 4 sell_hidden 5 (1 ∷ [])
      (record {
        id = omega arith;
        account = omega arith;
        price = (omega arith, omega arith);
        quantity = omega arith;
        display = omega arith;
        hides = λ k. omega arith;
      })
      refl (omega arith)
