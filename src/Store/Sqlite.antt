-- ===== src/Store/Sqlite.antt =====
-- store.py, `SqliteLongTermStore`: one row for a namespace and a key, with the value as JSON.
pub mod Keys
pub mod Agrees
use autocim_agent.Prelude.{
  String, ◌<>◌, str_eq, Bool, ◌&&◌, Option, none, some, List, [], ◌∷◌, if◌then◌else◌,
}
use autocim_agent.Store.{Namespace}

-- A row of the table.
pub record StoredRow : Type 0 where
  pub namespace : String
  pub key : String
  pub value : String

-- `"/".join(namespace)`
unfoldable pub namespace_key : Namespace → String
namespace_key [] = ""
namespace_key (a ∷ []) = a
namespace_key (a ∷ b ∷ n) = a <> ("/" <> namespace_key (b ∷ n))

-- The condition of the primary key.
abbrev pub has_key : StoredRow → String → String → Bool
has_key row namespace key = str_eq row.namespace namespace && str_eq row.key key

-- The `SELECT` of a value, and the `INSERT` that updates on a conflict.
unfoldable pub select_value : List StoredRow → String → String → Option String
select_value [] namespace key = none
select_value (row ∷ rows) namespace key =
    let rest = select_value rows namespace key in
    if has_key row namespace key then some row.value else rest

unfoldable pub upsert : List StoredRow → String → String → String → List StoredRow
upsert [] namespace key value = record { namespace = namespace; key = key; value = value } ∷ []
upsert (row ∷ rows) namespace key value =
    let rest = upsert rows namespace key value in
    if has_key row namespace key then record row { value = value } ∷ rows else row ∷ rest

-- `json.dumps` and `json.loads`.
pub record Json (V : Type 0) : Type 0 where
  pub dumps : V → String
  pub loads : String → V

module _ {V : Type 0} (json : Json V) where
  abbrev pub loaded_value : Option String → Option V
  loaded_value none = none
  loaded_value (some text) = some (json.loads text)

  -- `SqliteLongTermStore.get`
  unfoldable pub sqlite_get : List StoredRow → Namespace → String → Option V
  sqlite_get rows namespace key = loaded_value (select_value rows (namespace_key namespace) key)

  -- `SqliteLongTermStore.put`
  unfoldable pub sqlite_put : List StoredRow → Namespace → String → V → List StoredRow
  sqlite_put rows namespace key value = upsert rows (namespace_key namespace) key (json.dumps value)
