-- ===== src/Json/Equal.antt =====
-- reflect.DeepEqual on decoded JSON values: objects are maps, so their order does not count.
use chik.Prelude.{
  Bool, Option, String, false, if◌then◌else◌, nat_eq, none, not, some, string_eq, suc, true, ℕ,
  ◌&&◌, ◌==◌,
}
use chik.Json.{Fields, Items, Numbers, Value, arr, bool, end, field, item, nil, null, num, obj, str}

module _ {N : Type 0} where
  abbrev count_fields : Fields N → ℕ
  count_fields end = 0
  count_fields (field k v fs) = suc (count_fields fs)

  abbrev find_field : String → Fields N → Option (Value N)
  find_field key end = none
  find_field key (field k v fs) = if k == key then some v else find_field key fs

module _ {N : Type 0} ⦃ops : Numbers N⦄ where
  unfoldable mutual
    pub value_equal : Value N → Value N → Bool
    value_equal null null = true
    value_equal (bool a) (bool b) = if a then b else not b
    value_equal (num a) (num b) = ops.eq a b
    value_equal (str a) (str b) = a == b
    value_equal (arr a) (arr b) = items_equal a b
    value_equal (obj a) (obj b) = count_fields a == count_fields b && fields_equal a b
    value_equal _ _ = false

    pub items_equal : Items N → Items N → Bool
    items_equal nil nil = true
    items_equal (item v vs) (item w ws) = value_equal v w && items_equal vs ws
    items_equal _ _ = false

    -- Each field has its equal in the other object.
    pub fields_equal : Fields N → Fields N → Bool
    fields_equal end other = true
    fields_equal (field k v fs) other =
        elim (find_field k other) [ none ↦ false | some w ↦ value_equal v w ]
        && fields_equal fs other
