-- ===== src/Store/Sqlite/Agrees.antt =====
-- The store of rows gives what the store in memory gives.
use autocim_agent.Prelude.{
  ◌≡◌, refl, ◌∙◌, ap, String, str_eq, eq_iff, ◌&&◌, arith, some, List, [], ◌∷◌, All, if◌then◌else◌,
}
use autocim_agent.Store.{Namespace, Buckets, get, put}
use autocim_agent.Store.Laws.{get-put}
use autocim_agent.Prelude.Dict.{lookup}
use autocim_agent.Store.Sqlite.Keys.{Used, namespace_key-apart}
use autocim_agent.Store.Sqlite.{
  StoredRow, namespace_key, select_value, upsert, Json, loaded_value, sqlite_get, sqlite_put,
}

select_value-upsert :
    (rows : List StoredRow) (m j v n k : String)
    → select_value (upsert rows m j v) n k
      ≡ (if str_eq m n && str_eq j k then some v else select_value rows n k)
unfolding select_value upsert
select_value-upsert [] m j v n k = refl
select_value-upsert (row ∷ rows) m j v n k = ground (
  arith,
  select_value-upsert rows m j v n k,
  eq_iff row.namespace m,
  eq_iff row.key j,
  eq_iff row.namespace n,
  eq_iff row.key k,
  eq_iff m n,
  eq_iff j k,
)

module _ {V : Type 0} (json : Json V) where
  -- The writes of a run, the last one first: on the table, and in memory.
  abbrev pub sqlite_writes : List (Namespace × String × V) → List StoredRow
  sqlite_writes [] = []
  sqlite_writes ((n, k, v) ∷ writes) = sqlite_put json (sqlite_writes writes) n k v

  abbrev pub memory_writes : List (Namespace × String × V) → Buckets V
  memory_writes [] = []
  memory_writes ((n, k, v) ∷ writes) = put (memory_writes writes) n k v

  sqlite_get-put :
      (rows : List StoredRow) (m n : Namespace) (j k : String) (v : V)
      → json.loads (json.dumps v) ≡ v
      → sqlite_get json (sqlite_put json rows m j v) n k ≡ (
          if str_eq (namespace_key m) (namespace_key n) && str_eq j k
          then some v
          else sqlite_get json rows n k)
  unfolding sqlite_get sqlite_put
  sqlite_get-put rows m n j k v e =
      ap (loaded_value json)
        (select_value-upsert rows (namespace_key m) j (json.dumps v) (namespace_key n) k)
      ∙ ground (arith, e)

  -- After any writes of the two memories from an empty store on, of values that JSON gives back:
  -- every read of the table gives what the store in memory gives.
  pub sqlite_get-writes :
      (writes : List (Namespace × String × V)) (n : Namespace) (k : String)
      → ((v : V) → json.loads (json.dumps v) ≡ v)
      → All (λ w. Used w.0) writes
      → Used n
      → sqlite_get json (sqlite_writes writes) n k ≡ get (memory_writes writes) n k
  unfolding sqlite_get get lookup select_value
  sqlite_get-writes [] n k round_trip used u = refl
  sqlite_get-writes ((m, j, v) ∷ writes) n k round_trip used u =
      sqlite_get-put (sqlite_writes writes) m n j k v (round_trip v)
      ∙ ground (
        arith,
        get-put (memory_writes writes) m n j k v,
        namespace_key-apart m n used.0 u,
        sqlite_get-writes writes n k round_trip used.1 u,
      )
