-- ===== src/Store/Examples.antt =====
-- Witnesses and tests of the usage store, over a database that is a list of rows and never fails.
use moaray.Base.{◌≡◌, refl, true, none, some, List, [], ◌∷◌, ◌++◌, All, sym, false, arith}
use moaray.Base.Int.{pos}
use moaray.Base.Result.{ok, ok-injective}
use moaray.Core.Usage.{UsageRecord, passthrough, ok_no_usage}
use moaray.Store.Row.{Column, params, read_row, read_row-params}
use moaray.Store.Database.{Sqlite, init_db, flush_batch, execute_all}
use moaray.Store.Writer.{Store, row, flush, stop, waiting, try_send, record_usage, new, writer_loop}
use moaray.Store.Ledger.{recorded}
use moaray.Store.Run.{Run, IsFresh, IsDurable}
use moaray.Store.Ordered.{acked-IsDurable, new-IsFresh}
use moaray.Store.Idle.{IsIdle, writer_loop-settles}
use moaray.Store.Shutdown.{Deadlines, flush_and_join, IsEnough, flush_and_join-stores}

abbrev table_only : Sqlite
table_only = record {
  Connection = List (List Column);
  Transaction = List (List Column);
  Failure = Unit {0};
  open_at = λ path. ok [];
  pragma_update = λ c k v. ok c;
  execute_batch = λ c sql. ok c;
  transaction = ok;
  prepare_cached = λ t sql. ok t;
  execute = λ t sql cs. ok (t ++ cs ∷ []);
  commit = ok;
  rows = λ c. c;
  seen = λ t. t;
  transaction-seen = λ e. sym (ok-injective e);
  prepare-seen = λ e. sym (ok-injective e);
  insert-seen = λ e. sym (ok-injective e);
  commit-rows = λ e. sym (ok-injective e);
}

abbrev a_record : UsageRecord
a_record = record {
  request_id = "r-1";
  ts_unix_ms = pos 1000;
  path = passthrough;
  arm = passthrough;
  model = "m";
  upstream_id = "openai/m";
  caller_key_id = "k";
  prompt_tokens = none;
  completion_tokens = some (pos 3);
  price_prompt_nano_per_mtok = none;
  price_completion_nano_per_mtok = none;
  cost_nano_usd = none;
  status = ok_no_usage;
}

read_row-params_example : read_row (params a_record) ≡ some a_record
read_row-params_example = read_row-params a_record

abbrev opened : Store table_only
opened = record {
  capacity = 2;
  batch = 1;
  queue = [];
  conn = [];
  buf = [];
  stop_seen = false;
  pending_ack = none;
  phase = waiting;
  acked = [];
  dropped = 0;
  failures = 0;
}

new_test : new table_only "usage.db" 2 0 ≡ ok opened
unfolding new init_db
new_test = refl

new-IsFresh_example : IsFresh table_only opened
new-IsFresh_example = new-IsFresh table_only "usage.db" 2 0 new_test

abbrev holding : Store table_only
holding = record opened { queue = row a_record ∷ [] }

-- A row behind a stop is not stored: the writer returns and the channel goes with it.
abbrev stopping : Store table_only
stopping = record opened { queue = stop ∷ row a_record ∷ [] }

stopping_test :
    ((writer_loop table_only 3 stopping).conn ≡ [])
    × ((writer_loop table_only 3 stopping).queue ≡ [])
unfolding writer_loop
stopping_test = (refl, refl)

room_for_one : try_send table_only (row a_record) opened ≡ some holding
unfolding try_send
room_for_one = refl

abbrev asking : Store table_only
asking = record opened { queue = row a_record ∷ flush 7 ∷ [] }

-- The row, then the flush, then the writer until it has acknowledged.
abbrev served : Store table_only
unfolding writer_loop
served = writer_loop table_only 6 asking

served_test : (served.acked ≡ 7 ∷ []) × (served.conn ≡ params a_record ∷ [])
unfolding served flush_batch execute_all params
served_test = (refl, refl)

asked-Run : Run table_only opened (row a_record ∷ flush 7 ∷ []) asking
unfolding record_usage try_send
asked-Run = Run.asked (flush 7) (Run.recorded a_record Run.here room_for_one) refl

served-Run : Run table_only opened (row a_record ∷ flush 7 ∷ []) served
unfolding served writer_loop
served-Run = Run.worked (Run.worked (Run.worked (Run.worked (Run.worked (Run.worked asked-Run)))))

acked-IsDurable_example :
    All (IsDurable table_only [] (row a_record ∷ flush 7 ∷ []) served.conn) served.acked
unfolding served flush_batch execute_all
acked-IsDurable_example = acked-IsDurable table_only new-IsFresh_example served-Run refl

writer_loop-settles_example : IsIdle table_only (writer_loop table_only 8 asking)
writer_loop-settles_example = writer_loop-settles table_only 8 asking (omega arith)

holding-Run : Run table_only opened (row a_record ∷ []) holding
unfolding record_usage try_send
holding-Run = Run.recorded a_record Run.here room_for_one

abbrev in_time : Deadlines
in_time = record { flush_room = 5; flush_ack = 5; stop_room = 0; join = 3 }

in_time-IsEnough : IsEnough table_only in_time holding
in_time-IsEnough = record { flush_room = omega arith; flush_ack = omega arith; join = omega arith }

joined_test : (flush_and_join table_only 0 in_time holding).0.failures ≡ 0
unfolding flush_and_join flush_batch execute_all
joined_test = refl

flush_and_join-stores_example :
    ((flush_and_join table_only 0 in_time holding).1 ≡ true)
    × ((flush_and_join table_only 0 in_time holding).0.conn ≡ params a_record ∷ [])
flush_and_join-stores_example =
    flush_and_join-stores table_only 0 in_time new-IsFresh_example holding-Run ((λ h. cc), tt)
      in_time-IsEnough joined_test
