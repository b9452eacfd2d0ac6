-- ===== src/State/Merge.antt =====
-- What the reducers of state.py promise: the right side wins key by key, and two nodes that write
-- under different keys can be merged in either order.
use autocim_agent.Prelude.{String, ◌≡◌, ◌⊎◌, Option, none, some, [], ◌∷◌, arith, eq_iff}
use autocim_agent.Prelude.Dict.{
  Dict, lookup, insert, later, NodupKeys, lookup-nil, lookup-cons, lookup-insert, lookup-update,
}
use autocim_agent.State.{merge_dicts, Entry, merge_entry, namespaced_metrics_reducer}

module _ {ℓ} {V : Type ℓ} where
  -- The merge has a key's value on the right where the right side has the key, and else its value
  -- on the left.
  pub lookup-merge_dicts :
      (left right : Dict V) (k : String)
      → NodupKeys right
      → lookup k (merge_dicts left right) ≡ later (lookup k left) (lookup k right)
  unfolding merge_dicts
  lookup-merge_dicts [] right k u = ground (arith, lookup-nil {V = V} k)
  lookup-merge_dicts (x ∷ left) [] k u = ground (arith, lookup-nil {V = V} k)
  lookup-merge_dicts (x ∷ left) (y ∷ right) k u = lookup-update (x ∷ left) (y ∷ right) k u

  -- The new value merged into the old one, if there is a new one.
  abbrev pub merged_entry : Option (Entry V) → Option (Entry V) → Option (Entry V)
  merged_entry old none = old
  merged_entry old (some value) = some (merge_entry old value)

  -- The reducer gives every key of the metrics store the value on the right, merged into the one on
  -- the left if both are dicts, and keeps the left's value where the right has none.
  lookup-namespaced :
      (left right : Dict (Entry V)) (k : String)
      → NodupKeys right
      → lookup k (namespaced_metrics_reducer left right)
        ≡ merged_entry (lookup k left) (lookup k right)
  unfolding namespaced_metrics_reducer
  lookup-namespaced left [] k u = ground (arith, lookup-nil {V = Entry V} k)
  lookup-namespaced left ((j, v) ∷ right) k u = ground (
    arith,
    lookup-cons j k v right,
    lookup-insert j k (merge_entry (lookup j left) v) left,
    lookup-namespaced (insert j (merge_entry (lookup j left) v) left) right k u.1,
    eq_iff j k,
  )

  -- Parallel writers under different namespaces: whichever update is merged first, every key of
  -- the metrics store holds the same value.
  pub namespaced_comm :
      (store a b : Dict (Entry V)) (k : String)
      → NodupKeys a
      → NodupKeys b
      → (lookup k a ≡ none) ⊎ (lookup k b ≡ none)
      → lookup k (namespaced_metrics_reducer (namespaced_metrics_reducer store a) b)
        ≡ lookup k (namespaced_metrics_reducer (namespaced_metrics_reducer store b) a)
  namespaced_comm store a b k ua ub apart = ground (
    arith,
    lookup-namespaced (namespaced_metrics_reducer store a) b k ub,
    lookup-namespaced (namespaced_metrics_reducer store b) a k ua,
    lookup-namespaced store a k ua,
    lookup-namespaced store b k ub,
  )
