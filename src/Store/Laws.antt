-- ===== src/Store/Laws.antt =====
-- A store returns what was written, and the calibration factors of a run add to the earlier ones.
use autocim_agent.Prelude.{
  ◌≡◌, inl, inr, refl, sym, ◌∙◌, ap, String, str_eq, eq_iff, Bool, true, false, ◌&&◌, Bool-cases,
  some, [], ◌∷◌, arith, get_or, if◌then◌else◌,
}
use mathlib.Core.Option
use autocim_agent.Prelude.Dict.{
  Dict, lookup, later, NodupKeys, lookup-insert, lookup-nil, lookup-cons,
}
use autocim_agent.State.Merge.{lookup-merge_dicts}
use autocim_agent.Store.{
  Namespace, same_namespace, Buckets, bucket, get, put, StoreOps, in_memory, hw_namespace,
  get_calibration_factors, put_calibration_factors,
}

pub same_namespace_refl : (n : Namespace) → same_namespace n n ≡ true
same_namespace_refl [] = refl
same_namespace_refl (a ∷ n) = ground (arith, eq_iff a a, same_namespace_refl n)

both : (a b : Bool) → (a && b) ≡ true → (a ≡ true) × (b ≡ true)
both a b h = ground arith

pub same_namespace_eq : (m n : Namespace) → same_namespace m n ≡ true → m ≡ n
same_namespace_eq [] [] h = refl
same_namespace_eq [] (b ∷ n) h = cc h
same_namespace_eq (a ∷ m) [] h = cc h
same_namespace_eq (a ∷ m) (b ∷ n) h =
    let (same_head, same_tail) = both (str_eq a b) (same_namespace m n) h in
    cc ((eq_iff a b).0 same_head, same_namespace_eq m n same_tail)

same_namespace_left :
    (l m n : Namespace) → same_namespace l m ≡ true → same_namespace l n ≡ same_namespace m n
same_namespace_left l m n h = ap (λ x. same_namespace x n) (same_namespace_eq l m h)

same_namespace_apart :
    (l m n : Namespace)
    → same_namespace l m ≡ false
    → same_namespace l n ≡ true
    → same_namespace m n ≡ false
same_namespace_apart l m n h k = elim (Bool-cases (same_namespace m n)) [
  | inl e ↦ cc (
    same_namespace_refl l,
    ap (λ x. same_namespace l x) (same_namespace_eq l n k ∙ sym (same_namespace_eq m n e)),
    h,
  )
  | inr e ↦ e
]

module _ {V : Type 0} where
  -- After a write, a read gives the written value at that namespace and key, and elsewhere what it
  -- gave before.
  pub get-put :
      (data_ : Buckets V) (m n : Namespace) (j k : String) (v : V)
      → get (put data_ m j v) n k
        ≡ (if same_namespace m n && str_eq j k then some v else get data_ n k)
  unfolding get put bucket
  get-put [] m n j k v = ground (arith, lookup-nil {V = V} k, lookup-cons j k v [])
  get-put ((l, d) ∷ data_) m n j k v = ground (
    arith,
    same_namespace_left l m n,
    same_namespace_apart l m n,
    lookup-insert j k v d,
    get-put data_ m n j k v,
  )

-- What a client may rely on in a store: a write is read back, and leaves the rest as it was.
pub record IsStore {S V : Type 0} (ops : StoreOps S V) : Type 0 where
  pub read-write :
      (s : S) (m n : Namespace) (j k : String) (v : V)
      → ops.read (ops.write s m j v) n k
        ≡ (if same_namespace m n && str_eq j k then some v else ops.read s n k)

pub in_memory-IsStore : {V : Type 0} → IsStore (in_memory {V = V})
in_memory-IsStore = record { read-write = get-put }

module _ {S V : Type 0} (ops : StoreOps S (Dict V)) (law : IsStore ops) where
  pub read-written :
      (s : S) (n : Namespace) (k : String) (v : Dict V) → ops.read (ops.write s n k v) n k ≡ some v
  read-written s n k v =
      ground (arith, law.read-write s n n k k v, same_namespace_refl n, eq_iff k k)

  read-kept :
      (s : S) (m n : Namespace) (j k : String) (v : Dict V)
      → same_namespace m n ≡ false
      → ops.read (ops.write s m j v) n k ≡ ops.read s n k
  read-kept s m n j k v h = ground (arith, law.read-write s m n j k v)

  -- In every store that reads back what was written: after a run has put its calibration factors,
  -- the factor of each key is the run's where it has one and else the earlier one, and the factors
  -- of other hardware are as they were.
  pub get-put_calibration_factors :
      (s : S) (hw other : String) (factors : Dict V) (k : String)
      → NodupKeys factors
      → (Option.map
            (lookup k)
            (get_calibration_factors ops (put_calibration_factors ops s hw factors) hw)
          ≡ some
              (later (lookup k (get_or (get_calibration_factors ops s hw) [])) (lookup k factors)))
        × (str_eq hw other ≡ false
            → get_calibration_factors ops (put_calibration_factors ops s hw factors) other
              ≡ get_calibration_factors ops s other)
  unfolding get_calibration_factors put_calibration_factors
  get-put_calibration_factors s hw other factors k u = (
    ap (Option.map (lookup k)) (read-written s (hw_namespace hw) "calibration_factors" _)
        ∙ ap some (lookup-merge_dicts _ factors k u),
    λ h. read-kept s (hw_namespace hw) (hw_namespace other) _ _ _ (rw (h) refl),
  )
