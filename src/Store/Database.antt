-- ===== src/Store/Database.antt =====
-- crates/moaray-store/src/lib.rs: what the store uses of `rusqlite`, opening the database, and a batch
-- in one transaction.
use moaray.Base.{String, ◌≡◌, List, [], ◌∷◌, ◌++◌, map, ◌∙◌, ap, arith}
use mathlib.Core.List.{append-nil, append_assoc}
use moaray.Base.Int.{ℤ, pos}
use moaray.Base.Result.{Result, ok, ◌>>=◌, passed}
use moaray.Core.Usage.{UsageRecord}
use moaray.Store.Row.{Column, text, integer, params}

abbrev pub schema_version : ℤ
schema_version = pos 1

abbrev pub create_table_sql : String
create_table_sql =
    "CREATE TABLE IF NOT EXISTS usage_events (\n    id INTEGER PRIMARY KEY AUTOINCREMENT,\n    request_id TEXT NOT NULL,\n    ts_unix_ms INTEGER NOT NULL,\n    path TEXT NOT NULL,\n    arm TEXT NOT NULL,\n    model TEXT NOT NULL,\n    upstream_id TEXT NOT NULL,\n    caller_key_id TEXT NOT NULL,\n    prompt_tokens INTEGER,\n    completion_tokens INTEGER,\n    price_prompt_nano_per_mtok INTEGER,\n    price_completion_nano_per_mtok INTEGER,\n    cost_nano_usd INTEGER,\n    status TEXT NOT NULL\n);\nCREATE INDEX IF NOT EXISTS idx_usage_events_request_id ON usage_events(request_id);\nCREATE INDEX IF NOT EXISTS idx_usage_events_ts ON usage_events(ts_unix_ms);"

abbrev pub insert_sql : String
insert_sql =
    "INSERT INTO usage_events (\n                request_id, ts_unix_ms, path, arm, model, upstream_id, caller_key_id,\n                prompt_tokens, completion_tokens,\n                price_prompt_nano_per_mtok, price_completion_nano_per_mtok,\n                cost_nano_usd, status\n            ) VALUES (?1,?2,?3,?4,?5,?6,?7,?8,?9,?10,?11,?12,?13)"

-- `rusqlite`: a transaction that is dropped before its commit rolls back, so that a failure leaves the
-- connection as it was.
pub record Sqlite : Type 1 where
  pub Connection : Type 0
  pub Transaction : Type 0
  pub Failure : Type 0
  pub open_at : String → Result Connection Failure
  pub pragma_update : Connection → String → Column → Result Connection Failure
  pub execute_batch : Connection → String → Result Connection Failure
  pub transaction : Connection → Result Transaction Failure
  pub prepare_cached : Transaction → String → Result Transaction Failure
  pub execute : Transaction → String → List Column → Result Transaction Failure
  pub commit : Transaction → Result Connection Failure
  -- the rows of `usage_events`, in the order of their ids, committed and as the transaction sees them
  pub rows : Connection → List (List Column)
  pub seen : Transaction → List (List Column)
  pub transaction-seen : {c : Connection} {t : Transaction} → transaction c ≡ ok t → seen t ≡ rows c
  pub prepare-seen :
      {t u : Transaction} {sql : String} → prepare_cached t sql ≡ ok u → seen u ≡ seen t
  pub insert-seen :
      {t u : Transaction} {cs : List Column}
      → execute t insert_sql cs ≡ ok u
      → seen u ≡ seen t ++ cs ∷ []
  pub commit-rows : {t : Transaction} {c : Connection} → commit t ≡ ok c → rows c ≡ seen t

module _ (D : Sqlite) where
  open D use {Connection, Transaction, Failure}

  unfoldable pub init_db : Connection → Result Connection Failure
  init_db conn = do
    c1 ← D.pragma_update conn "journal_mode" (text "WAL")
    c2 ← D.pragma_update c1 "synchronous" (text "NORMAL")
    c3 ← D.execute_batch c2 create_table_sql
    D.pragma_update c3 "user_version" (integer schema_version)

  unfoldable pub execute_all : Transaction → List UsageRecord → Result Transaction Failure
  execute_all t [] = ok t
  execute_all t (r ∷ rs) = do u ← D.execute t insert_sql (params r); execute_all u rs

  unfoldable pub flush_batch : Connection → List UsageRecord → Result Connection Failure
  flush_batch conn batch = do
    t ← D.transaction conn
    u ← D.prepare_cached t insert_sql
    v ← execute_all u batch
    D.commit v

  execute_all-seen :
      (t : Transaction) (rs : List UsageRecord) {u : Transaction}
      → execute_all t rs ≡ ok u
      → D.seen u ≡ D.seen t ++ map params rs
  unfolding execute_all
  execute_all-seen t [] h = ground (arith, append-nil (D.seen t))
  execute_all-seen t (r ∷ rs) h =
      let p = passed (λ u. execute_all u rs) (D.execute t insert_sql (params r)) h in
      execute_all-seen p.value rs p.second
      ∙ ap (λ x. x ++ map params rs) (D.insert-seen p.first)
      ∙ append_assoc (D.seen t) (params r ∷ []) (map params rs)

  -- A batch that is committed adds exactly its rows, in order, behind those of the table.
  pub flush_batch-rows :
      (c : Connection) (rs : List UsageRecord) {c' : Connection}
      → flush_batch c rs ≡ ok c'
      → D.rows c' ≡ D.rows c ++ map params rs
  unfolding flush_batch
  flush_batch-rows c rs h =
      let began = passed _ (D.transaction c) h in
      let prepared = passed _ (D.prepare_cached began.value insert_sql) began.second in
      let done = passed D.commit (execute_all prepared.value rs) prepared.second in
      D.commit-rows done.second
      ∙ execute_all-seen prepared.value rs done.first
      ∙ ap (λ x. x ++ map params rs)
          (D.prepare-seen prepared.first ∙ D.transaction-seen began.first)
