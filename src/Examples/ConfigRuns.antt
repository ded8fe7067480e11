-- ===== src/Examples/ConfigRuns.antt =====
-- An override file that changes one setting of two, and a reload with it.
use Prim.Native.String.{String}
use rustservicelib.Base.{ℕ, [], ◌∷◌, none, some, string_eq, ◌≡◌, refl, ◌⊎◌}
use rustservicelib.Config.Yaml.{
  Fields, leaf, mapping, no_fields, field, find, at, merge_found, IsMapping, AllDistinct,
  FieldsDistinct, merge_found-leaf,
}
use rustservicelib.Config.Loader.{
  loaded, invalid, Sources, ConfigLoader, reload, Succeeds, reload_transactional,
}

abbrev pool_fields : Fields String ℕ
pool_fields = field "executors" (leaf 4) (field "priority" (leaf 0) no_fields)

abbrev base_fields : Fields String ℕ
base_fields = field "pool" (mapping pool_fields) no_fields

abbrev override_pool : Fields String ℕ
override_pool = field "executors" (leaf 8) no_fields

abbrev override_fields : Fields String ℕ
override_fields = field "pool" (mapping override_pool) no_fields

override_fields-IsMapping : IsMapping override_fields
unfolding find
override_fields-IsMapping = (refl, tt)

override-AllDistinct : AllDistinct (mapping override_fields)
unfolding AllDistinct FieldsDistinct find
override-AllDistinct = ((refl, tt), (((refl, tt), (tt, tt)), tt))

override_at : at ("pool" ∷ "executors" ∷ []) (mapping override_fields) ≡ some (leaf 8)
unfolding at find
override_at = refl

merge_found-leaf_example :
    at
      ("pool" ∷ "executors" ∷ [])
      (merge_found (some (mapping base_fields)) (mapping override_fields))
    ≡ some (leaf 8)
merge_found-leaf_example =
    merge_found-leaf ("pool" ∷ "executors" ∷ []) (some (mapping base_fields))
      (mapping override_fields) 8 override-AllDistinct override_at

abbrev sources : Sources String ℕ ℕ ℕ
sources = record {
  defaults = loaded (mapping no_fields);
  base = some (loaded (mapping base_fields));
  override_file = some (loaded (mapping override_fields));
  from_value = λ v. loaded 8;
  apply_environment = λ c. loaded c;
  validate = λ c. loaded tt;
  runtime = λ c. loaded c;
  handler = none;
}

abbrev old_loader : ConfigLoader ℕ ℕ
old_loader = record { current = 4; runtime_config = 4 }

reload_transactional_example :
    (((c : ℕ) (r : ℕ) → Succeeds sources c r → ⊥)
      × ((text : String) × (reload sources old_loader ≡ (invalid text, []))))
    ⊎ ((c : ℕ) × (r : ℕ) × Succeeds sources c r
        × (reload sources old_loader ≡ (
          loaded c,
          record old_loader { current = c } ∷ record { current = c; runtime_config = r } ∷ [],
        )))
reload_transactional_example = reload_transactional sources old_loader
