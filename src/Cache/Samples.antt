-- ===== src/Cache/Samples.antt =====
-- A cache that forgets nothing, for the tests.
use vertex_sdk_go.Prelude.{◌≡◌, refl, ◌⊎◌, Option, none, some, arith, if◌then◌else◌}
use vertex_sdk_go.Prelude.Strings.{Bytes, str_eq, str_eq_iff}
use vertex_sdk_go.Cache.{Cache}

abbrev pub Table : Type 0 → Type 0
Table V = Bytes → Option V

abbrev store : {V : Type 0} → Bytes → V → Table V → Table V
store k v t j = if str_eq j k then some v else t j

abbrev forget : {V : Type 0} → Bytes → Table V → Table V
forget k t j = if str_eq j k then none else t j

pub store_get :
    {V : Type 0} (k j : Bytes) (v w : V) (t : Table V)
    → store k v t j ≡ some w
    → ((j ≡ k) × (w ≡ v)) ⊎ (t j ≡ some w)
store_get k j v w t h = ground (arith, str_eq_iff j k)

pub forget_self : {V : Type 0} (k : Bytes) (t : Table V) → forget k t k ≡ none
forget_self k t = ground (arith, str_eq_iff k k)

pub forget_other :
    {V : Type 0} (k j : Bytes) (w : V) (t : Table V) → forget k t j ≡ some w → t j ≡ some w
forget_other k j w t h = ground arith

abbrev pub table_cache : (V : Type 0) → Cache V
table_cache V = record {
  State = Table V;
  get = λ now k t. t k;
  set_with_ttl = λ at ttl k v t. store k v t;
  del = forget;
  clear = λ t k. none;
  get_set = λ now at ttl k j v w t. store_get k j v w t;
  get_del = λ now k t. forget_self k t;
  get_del_other = λ now k j w t. forget_other k j w t;
  get_clear = λ now k t. refl;
}
