-- ===== src/Store.antt =====
-- store.py: the store in memory, and the two long-term memories over any store.
pub mod Laws
pub mod Sqlite
use autocim_agent.Prelude.{
  ℕ, suc, ◌==◌, String, str_eq, Bool, true, false, ◌&&◌, Option, some, List, [], ◌∷◌, ◌++◌, get_or,
  max, take, length, if◌then◌else◌,
}
use autocim_agent.Prelude.Dict.{Dict, lookup, insert}
use autocim_agent.Prelude.Float.{Float}
use autocim_agent.State.{merge_dicts}

-- A namespace is a tuple of strings.
abbrev pub Namespace : Type 0
Namespace = List String

abbrev pub same_namespace : Namespace → Namespace → Bool
same_namespace [] [] = true
same_namespace (a ∷ m) (b ∷ n) = str_eq a b && same_namespace m n
same_namespace _ _ = false

-- `namespace[: len(prefix)] == prefix`
abbrev pub has_prefix : Namespace → Namespace → Bool
has_prefix [] namespace = true
has_prefix (p ∷ prefix) [] = false
has_prefix (p ∷ prefix) (n ∷ namespace) = str_eq n p && has_prefix prefix namespace

-- `_data`: the buckets, in insertion order.
abbrev pub Buckets : Type 0 → Type 0
Buckets V = List (Namespace × Dict V)

module _ {V : Type 0} where
  -- `_data.get(namespace, {})`
  bucket : Namespace → Buckets V → Dict V
  bucket namespace [] = []
  bucket namespace ((n, d) ∷ data_) =
      if same_namespace n namespace then d else bucket namespace data_

  -- `InMemoryLongTermStore.get`
  unfoldable pub get : Buckets V → Namespace → String → Option V
  unfolding bucket
  get data_ namespace key = lookup key (bucket namespace data_)

  -- `InMemoryLongTermStore.put`
  unfoldable pub put : Buckets V → Namespace → String → V → Buckets V
  put [] namespace key value = (namespace, (key, value) ∷ []) ∷ []
  put ((n, d) ∷ data_) namespace key value =
      if same_namespace n namespace
      then (n, insert key value d) ∷ data_
      else (n, d) ∷ put data_ namespace key value

-- `SearchResult`
pub record SearchResult (F V : Type 0) : Type 0 where
  pub namespace : Namespace
  pub key : String
  pub value : V
  pub score : Option F

contains_text : String → List String → Bool
contains_text t [] = false
contains_text t (u ∷ us) = if str_eq t u then true else contains_text t us

-- `set(texts)`, and the size of the intersection of two sets.
distinct : List String → List String
distinct [] = []
distinct (t ∷ texts) = let rest = distinct texts in if contains_text t rest then rest else t ∷ rest

overlap : List String → List String → ℕ
overlap [] value_tokens = 0
overlap (t ∷ query_tokens) value_tokens =
    let rest = overlap query_tokens value_tokens in
    if contains_text t value_tokens then suc rest else rest

-- The ranking by the overlap of tokens; `tokens_of` splits the values of an entry, and a query, into
-- lower-case words.
module _ {F V : Type 0} ⦃fl : Float F⦄ (tokens_of : V → List String) where
  -- A hit of the query, if the entry shares a token with it.
  unfoldable pub hit : List String → Namespace → String → V → List (SearchResult F V)
  unfolding overlap contains_text distinct
  hit query namespace key value =
      let tokens = distinct query in
      let shared = overlap tokens (tokens_of value) in
      if shared == 0
      then []
      else record {
        namespace = namespace;
        key = key;
        value = value;
        score = some (fl.div (fl.of_nat shared) (fl.of_nat (max (length tokens) 1)));
      }
        ∷ []

  unfoldable pub bucket_hits : List String → Namespace → Dict V → List (SearchResult F V)
  bucket_hits query namespace [] = []
  bucket_hits query namespace ((key, value) ∷ entries) =
      hit query namespace key value ++ bucket_hits query namespace entries

  unfoldable pub all_hits : Namespace → List String → Buckets V → List (SearchResult F V)
  all_hits prefix query [] = []
  all_hits prefix query ((namespace, entries) ∷ data_) =
      let rest = all_hits prefix query data_ in
      if has_prefix prefix namespace then bucket_hits query namespace entries ++ rest else rest

  -- `r.score or 0.0`
  abbrev pub score_of : SearchResult F V → F
  score_of r = get_or r.score (fl.of_nat 0)

  -- The stable sort by descending score, by insertion.
  unfoldable pub insert_hit : SearchResult F V → List (SearchResult F V) → List (SearchResult F V)
  insert_hit r [] = r ∷ []
  insert_hit r (s ∷ results) =
      let rest = insert_hit r results in
      if fl.lt (score_of r) (score_of s) then s ∷ rest else r ∷ s ∷ results

  unfoldable pub sort_hits : List (SearchResult F V) → List (SearchResult F V)
  sort_hits [] = []
  sort_hits (r ∷ results) = insert_hit r (sort_hits results)

  -- `InMemoryLongTermStore.search`; `query` is the list of the query's words.
  unfoldable pub search_store : Buckets V → Namespace → List String → ℕ → List (SearchResult F V)
  search_store data_ prefix query limit = take limit (sort_hits (all_hits prefix query data_))

-- What the two long-term memories need of a store with state `S`.
pub record StoreOps (S V : Type 0) : Type 0 where
  pub read : S → Namespace → String → Option V
  pub write : S → Namespace → String → V → S

-- The store in memory, as such a store.
abbrev pub in_memory : {V : Type 0} → StoreOps (Buckets V) V
in_memory = record { read = get; write = put }

-- `_namespace` of the two classes
abbrev pub model_namespace : String → Namespace
model_namespace model_id = "autocim" ∷ "model" ∷ model_id ∷ []

abbrev pub hw_namespace : String → Namespace
hw_namespace hw_spec_id = "autocim" ∷ "hw" ∷ hw_spec_id ∷ []

module _ {S V : Type 0} (ops : StoreOps S (Dict V)) where
  -- `ModelSpecificStore`
  unfoldable pub get_pareto_solutions : S → String → Option (Dict V)
  get_pareto_solutions s model_id = ops.read s (model_namespace model_id) "pareto_solutions"

  unfoldable pub put_pareto_solutions : S → String → Dict V → S
  put_pareto_solutions s model_id solutions =
      ops.write s (model_namespace model_id) "pareto_solutions" solutions

  unfoldable pub get_sensitivity_profile : S → String → Option (Dict V)
  get_sensitivity_profile s model_id = ops.read s (model_namespace model_id) "sensitivity_profile"

  unfoldable pub put_sensitivity_profile : S → String → Dict V → S
  put_sensitivity_profile s model_id profile =
      ops.write s (model_namespace model_id) "sensitivity_profile" profile

  -- `GlobalHWStore`
  unfoldable pub get_noc_delay_rulebase : S → String → Option (Dict V)
  get_noc_delay_rulebase s hw_spec_id = ops.read s (hw_namespace hw_spec_id) "noc_delay_rulebase"

  unfoldable pub put_noc_delay_rulebase : S → String → Dict V → S
  put_noc_delay_rulebase s hw_spec_id rulebase =
      ops.write s (hw_namespace hw_spec_id) "noc_delay_rulebase" rulebase

  unfoldable pub get_calibration_factors : S → String → Option (Dict V)
  get_calibration_factors s hw_spec_id = ops.read s (hw_namespace hw_spec_id) "calibration_factors"

  unfoldable pub put_calibration_factors : S → String → Dict V → S
  put_calibration_factors s hw_spec_id factors =
      ops.write s (hw_namespace hw_spec_id) "calibration_factors"
        (merge_dicts (get_or (get_calibration_factors s hw_spec_id) []) factors)
