-- ===== src/Json/Laws.antt =====
-- What a lookup finds after `Map::insert`.
use aigis_zero.Json.{Value, Fields, end, field, get_field, insert}
use aigis_zero.Prelude.{
  String, ◌≡◌, refl, ap, some, arith, str_eq, str_eq_refl, if◌then◌else◌, Bool-cases, inl, inr,
  eq_iff,
}

pub get_field-insert :
    (k j : String) (v : Value) (fs : Fields)
    → get_field j (insert k v fs) ≡ (if str_eq k j then some v else get_field j fs)
unfolding get_field insert
get_field-insert k j v end = refl
get_field-insert k j v (field i w fs) =
    ground (arith, eq_iff k j, eq_iff i k, eq_iff i j, get_field-insert k j v fs)

-- Inserting the same binding twice is inserting it once.
pub insert_idem :
    (k : String) (v : Value) (fs : Fields) → insert k v (insert k v fs) ≡ insert k v fs
unfolding insert
insert_idem k v end = rw (str_eq_refl k) refl
insert_idem k v (field j w fs) = elim (Bool-cases (str_eq j k)) [
  | inl same ↦ rw (same, insert) (rw (same, insert) refl)
  | inr other ↦ rw (other, insert) (rw (other, insert) (ap (field j w) (insert_idem k v fs)))
]
