-- ===== src/Source/Registry.antt =====
-- `SourceRegistry` of src/ingest/source.rs. An adapter is what the source's trait object is: a value
-- with a descriptor.
pub mod Laws
use cyberwatch_rs.Prelude.{
  ◌==◌, text_eq, length, ◌>>=◌, ◌>>◌, bail_if, Result, ok, ℕ, String, List, [], ◌∷◌, ◌++◌, map,
}
use cyberwatch_rs.Prelude.Text.{trim}
use cyberwatch_rs.Prelude.Sets.{member}
use cyberwatch_rs.Models.{SourceDescriptor}

pub data RegisterError : Type 0 where
  empty_id : RegisterError
  duplicate_id : String → RegisterError

-- The part of `SourceAdapter` that the registry calls.
pub record SourceAdapter (A : Type 0) : Type 0 where
  pub descriptor : A → SourceDescriptor

pub record SourceRegistry (A : Type 0) : Type 0 where
  pub adapters : List A
  pub ids : List String

abbrev pub new : {A : Type 0} → SourceRegistry A
new = record { adapters = []; ids = [] }

module _ {A : Type 0} ⦃adapter_of : SourceAdapter A⦄ where
  abbrev pub id_of : A → String
  id_of adapter = (adapter_of.descriptor adapter).id

  unfoldable pub register : SourceRegistry A → A → Result RegisterError (SourceRegistry A)
  unfolding trim member
  register registry adapter = do
    bail_if (trim (id_of adapter) == "") empty_id
    bail_if (member (id_of adapter) registry.ids) (duplicate_id (id_of adapter))
    ok (record { adapters = registry.adapters ++ adapter ∷ []; ids = id_of adapter ∷ registry.ids })

  unfoldable pub descriptors : SourceRegistry A → List SourceDescriptor
  descriptors registry = map adapter_of.descriptor registry.adapters

  unfoldable pub registry_len : SourceRegistry A → ℕ
  registry_len registry = length registry.adapters

  -- `register` of the adapters of a list, one after the other.
  unfoldable pub register_all : SourceRegistry A → List A → Result RegisterError (SourceRegistry A)
  unfolding register
  register_all registry [] = ok registry
  register_all registry (adapter ∷ more) = do
    next ← register registry adapter
    register_all next more
