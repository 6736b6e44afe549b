-- ===== src/Tools/Registry.antt =====
-- `RegistrySnapshot` of core/tool_system.py. `digest` stands for the SHA-256 of the canonical JSON
-- of the sorted specs, which `json` and `hashlib` compute.
use mini_agent.Prelude.{
  List, Result, Bool, ◌∷◌, Option, ok, ◌>>◌, ◌>>=◌, true, if◌then◌else◌, [], none, all, err,
  raise_if, false, some, ◌==◌, is_empty, not, ltb, nat_eq, list_eq, ◌&&◌, map, distinct, option_eq,
  same_set,
}
use mini_agent.Prelude.Texts.{Text, non_empty, digest_after, codes}
use mini_agent.Tools.Spec.{ToolSpec, ToolRegistration, validate_spec, SpecError}

pub record ProviderToolNameBinding : Type 0 where
  pub provider_visible_name : Text
  pub canonical_tool_name : Text

pub record RegistrySnapshot : Type 0 where
  pub tool_registry_version : Text
  pub canonical_registrations : List ToolRegistration
  pub provider_visible_toolset : List ToolSpec
  pub provider_name_to_canonical_name : List ProviderToolNameBinding
  pub model_visible_toolset_hash : Text

pub data RegistryError : Type 0 where
  field empty_toolset duplicate_visible_name empty_registry duplicate_canonical_name : RegistryError
  hash_mismatch wrong_mapping wrong_toolset : RegistryError
  spec : SpecError → RegistryError

-- The order of `str`: by code point, a prefix first.
unfoldable pub text_le : Text → Text → Bool
text_le [] t = true
text_le (c ∷ s) [] = false
text_le (c ∷ s) (d ∷ t) =
    let rest = text_le s t in if ltb c d then true else if c == d then rest else false

-- `sorted(xs, key=key)`: a stable sort.
module _ {ℓ} {A : Type ℓ} (key : A → Text) where
  unfoldable pub insert_by : A → List A → List A
  insert_by x [] = x ∷ []
  insert_by x (y ∷ ys) =
      let rest = insert_by x ys in if text_le (key x) (key y) then x ∷ y ∷ ys else y ∷ rest

  unfoldable pub sort_by : List A → List A
  unfolding insert_by text_le
  sort_by [] = []
  sort_by (x ∷ xs) = insert_by x (sort_by xs)

abbrev pub spec_name : ToolSpec → Text
spec_name t = t.name

abbrev pub canonical_name : ToolRegistration → Text
canonical_name r = r.tool_spec.name

abbrev pub provider_name : ToolRegistration → Text
provider_name r = r.provider_visible_name

-- The spec that a provider sees: the registered one under the visible name.
abbrev pub project_spec : ToolRegistration → ToolSpec
project_spec r = record {
  name = r.provider_visible_name;
  description = r.tool_spec.description;
  input_schema = r.tool_spec.input_schema;
  output_schema = r.tool_spec.output_schema;
}

abbrev pub project_binding : ToolRegistration → ProviderToolNameBinding
project_binding r = record {
  provider_visible_name = r.provider_visible_name;
  canonical_tool_name = r.tool_spec.name;
}

abbrev pub binding_pair : ProviderToolNameBinding → Text × Text
binding_pair b = (b.provider_visible_name, b.canonical_tool_name)

abbrev pub registration_pair : ToolRegistration → Text × Text
registration_pair r = (r.provider_visible_name, r.tool_spec.name)

-- `d[k]` of a `dict` built from pairs: the last pair of a key counts.
unfoldable pub dict_get : Text → List (Text × Text) → Option Text
dict_get k [] = none
dict_get k ((j, v) ∷ rest) =
    let later = dict_get k rest in
    elim later [ some w ↦ some w | none ↦ if j == k then some v else none ]

-- `dict(xs) == dict(ys)`
unfoldable pub dict_eq : List (Text × Text) → List (Text × Text) → Bool
unfolding dict_get
dict_eq xs ys =
    all (λ p. dict_get p.0 ys == dict_get p.0 xs) xs
    && all (λ p. dict_get p.0 xs == dict_get p.0 ys) ys

unfoldable pub spec_result : Result SpecError (List ToolSpec) → Result RegistryError (List ToolSpec)
spec_result (ok ts) = ok ts
spec_result (err e) = err (spec e)

-- `tuple(ToolSpec(...) for ...)`: each construction validates.
unfoldable pub validate_specs : List ToolSpec → Result SpecError (List ToolSpec)
validate_specs [] = ok []
validate_specs (t ∷ ts) = do t' ← validate_spec t; ts' ← validate_specs ts; ok (t' ∷ ts')

module _ (digest : List ToolSpec → Text) where
  -- `compute_model_visible_toolset_hash`
  unfoldable pub compute_hash : List ToolSpec → Result RegistryError Text
  unfolding sort_by
  compute_hash tools = do
    raise_if (is_empty (map spec_name (sort_by spec_name tools))) empty_toolset
    raise_if (not (distinct (map spec_name (sort_by spec_name tools)))) duplicate_visible_name
    ok (digest (sort_by spec_name tools))

  -- The constraints of the fields and `snapshot_is_self_consistent`
  unfoldable pub validate_snapshot : RegistrySnapshot → Result RegistryError RegistrySnapshot
  unfolding compute_hash dict_eq
  validate_snapshot s = do
    raise_if
        (not (
          non_empty s.tool_registry_version
          && digest_after (codes "sha256:") s.model_visible_toolset_hash))
        field
    expected_hash ← compute_hash s.provider_visible_toolset
    raise_if (not (s.model_visible_toolset_hash == expected_hash)) hash_mismatch
    raise_if (not (distinct (map canonical_name s.canonical_registrations)))
        duplicate_canonical_name
    raise_if (not (distinct (map provider_name s.canonical_registrations))) duplicate_visible_name
    raise_if
        (not (
          dict_eq (map binding_pair s.provider_name_to_canonical_name)
            (map registration_pair s.canonical_registrations)))
        wrong_mapping
    raise_if
        (not (
          same_set (map spec_name s.provider_visible_toolset)
            (map provider_name s.canonical_registrations)))
        wrong_toolset
    ok s

  -- `RegistrySnapshot.build`
  unfoldable pub build : Text → List ToolRegistration → Result RegistryError RegistrySnapshot
  unfolding validate_snapshot spec_result validate_specs
  build version registrations = do
    raise_if (is_empty registrations) empty_registry
    raise_if (not (distinct (map canonical_name registrations))) duplicate_canonical_name
    raise_if (not (distinct (map provider_name registrations))) duplicate_visible_name
    toolset ← spec_result (validate_specs (map project_spec (sort_by provider_name registrations)))
    hash ← compute_hash toolset
    validate_snapshot (record {
      tool_registry_version = version;
      canonical_registrations = registrations;
      provider_visible_toolset = toolset;
      provider_name_to_canonical_name = map project_binding (sort_by provider_name registrations);
      model_visible_toolset_hash = hash;
    })
