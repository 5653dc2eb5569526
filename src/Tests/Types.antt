-- ===== src/Tests/Types.antt =====
-- ClickHouse types in wrappers.
use spoofdb.Base.{◌≡◌, refl, none, arith, [], ◌∷◌}
use spoofdb.Text.{Str, codes, trim_space, same, until}
use spoofdb.Engine.Types.{unwrap, unwrap_all, ch_to_duck_type}
use spoofdb.Engine.Types.Wrapped.{
  nullable, low_cardinality, wrap_all, unwrap_all_enough, ch_to_duck_type-wrap_all,
}

abbrev wrapped : Str
wrapped = codes "Nullable(Int64)"

unwrap_all_enough_example :
    (unwrap (unwrap_all 15 wrapped) ≡ none) × (unwrap_all 15 wrapped ≡ unwrap_all 20 wrapped)
unwrap_all_enough_example = unwrap_all_enough 15 20 wrapped (omega arith) (omega arith)

ch_to_duck_type_test : ch_to_duck_type (codes "LowCardinality(Nullable(Int64))") ≡ codes "BIGINT"
unfolding ch_to_duck_type same until trim_space
ch_to_duck_type_test = refl

ch_to_duck_type-wrap_all_example :
    ch_to_duck_type (wrap_all (low_cardinality ∷ nullable ∷ []) (codes "Int64"))
    ≡ ch_to_duck_type (codes "Int64")
unfolding trim_space
ch_to_duck_type-wrap_all_example =
    ch_to_duck_type-wrap_all (low_cardinality ∷ nullable ∷ []) (codes "Int64") refl
