-- ===== src/Fixtures/Layering.antt =====
-- The order of layers, patches and merges (packages/fixtures/src/layering.ts).
use mirk.Common.{
  ℕ, suc, Bool, true, false, Option, none, some, List, [], ◌∷◌, Ordering, compare, map,
  if◌then◌else◌,
}
use mirk.Common.Result.{Result, ok, ◌>>=◌}
use mirk.Text.{Str, ascii, str_eq}
use mirk.Sort.{sort}
use mirk.Js.{Number, Js, arr, obj, instance_of, Fields, end, field, property}
use mirk.Fixtures.Refs.{text_property}
use mirk.Fixtures.Shape.{
  LoadError, SourceOption, bare, layered, Layer, ProvenanceLayer, ContextLayer, MergeStrategy,
  replace_with, deep, array_replace, custom,
}

module _ {N : Type 0} where
  -- `isPatchDocument(value)`, with the reference that it patches.
  unfoldable pub patch_ref : Js N → Option Str
  unfolding text_property
  patch_ref v = text_property (ascii "$patch") v

  unfoldable pub is_patch_document : Js N → Bool
  unfolding patch_ref
  is_patch_document v = elim (patch_ref v) [ none ↦ false | some ref ↦ true ]

  -- The own property `k` is `v`: a new key goes to the end.
  unfoldable pub put_field : Str → Js N → Fields N → Fields N
  put_field k v end = field k v end
  put_field k v (field j w fs) = if str_eq j k then field k v fs else field j w (put_field k v fs)

  -- `o[k] = v`: `__proto__` stands for the prototype and makes no own property.
  unfoldable pub set_field : Str → Js N → Fields N → Fields N
  unfolding put_field
  set_field k v fs = if str_eq k (ascii "__proto__") then fs else put_field k v fs

  unfoldable pub without_field : Str → Fields N → Fields N
  without_field k end = end
  without_field k (field j v fs) =
      let rest = without_field k fs in if str_eq j k then rest else field j v rest

  -- `{ ...out, ...fs }`
  unfoldable pub spread : Fields N → Fields N → Fields N
  spread out end = out
  spread out (field k v fs) = spread (put_field k v out) fs

  -- `patchBody(doc)`
  unfoldable pub patch_body : Js N → Js N
  unfolding without_field
  patch_body (obj fs) = obj (without_field (ascii "$patch") fs)
  patch_body (instance_of fs) = obj (without_field (ascii "$patch") fs)
  patch_body v = v

  -- `provenanceCtx(layers)`
  unfoldable pub provenance_ctx : List (ProvenanceLayer N) → List (ContextLayer N)
  provenance_ctx ls =
      map
        (λ l. record {
          source_id = l.source_id;
          layer = l.layer;
          priority = l.priority;
          kind = l.kind;
        })
        ls

module _ {N : Type 0} ⦃number : Number N⦄ where
  -- The sign of `a.priority - b.priority || a.order - b.order`.
  unfoldable pub compare_layers : Layer N → Layer N → Ordering
  compare_layers a b =
      if number.lt a.priority b.priority
      then Ordering.lt
      else if number.lt b.priority a.priority
      then Ordering.gt
      else compare a.order b.order

  -- The map with the indexes as numbers; a bare source has its id and its place.
  unfoldable pub number_layers : (ℕ → N) → ℕ → List (SourceOption N) → List (Layer N)
  number_layers index i [] = []
  number_layers index i (bare s ∷ rest) =
      record { source = s; name = s.id; priority = index i; order = i }
      ∷ number_layers index (suc i) rest
  number_layers index i (layered s name priority ∷ rest) =
      record { source = s; name = name; priority = priority; order = i }
      ∷ number_layers index (suc i) rest

  -- `normalizeLayers(sources)`
  unfoldable pub normalize_layers : (ℕ → N) → List (SourceOption N) → List (Layer N)
  unfolding compare_layers number_layers sort
  normalize_layers index sources = sort compare_layers (number_layers index 0 sources)

-- `structuredClone` of the platform is a parameter.
module _ {N : Type 0} (structured_clone : Js N → Result LoadError (Js N)) where
  -- `cloneJsonish(value)`
  unfoldable pub clone_jsonish : Js N → Result LoadError (Js N)
  clone_jsonish (arr xs) = structured_clone (arr xs)
  clone_jsonish (obj fs) = structured_clone (obj fs)
  clone_jsonish (instance_of fs) = structured_clone (instance_of fs)
  clone_jsonish v = ok v

  -- `out[key] = cloneJsonish(value)` for each property.
  unfoldable pub clone_onto : Fields N → Fields N → Result LoadError (Fields N)
  unfolding clone_jsonish
  clone_onto end out = ok out
  clone_onto (field k v fs) out = do w ← clone_jsonish v; clone_onto fs (set_field k w out)

  unfoldable mutual
    unfolding clone_jsonish clone_onto property

    -- `deepMerge(existing, incoming)`
    pub deep_merge : Js N → Js N → Result LoadError (Js N)
    deep_merge (obj fs) (obj es) = do
      out ← clone_onto es end
      merged ← merge_entries fs es out
      ok (obj merged)
    deep_merge incoming existing = clone_jsonish incoming

    -- Its second loop.
    pub merge_entries : Fields N → Fields N → Fields N → Result LoadError (Fields N)
    merge_entries end es out = ok out
    merge_entries (field k v fs) es out = do
      w ← elim (property k es) [ none ↦ clone_jsonish v | some old ↦ deep_merge v old ]
      merge_entries fs es (set_field k w out)

  -- `shallowObjectMerge(existing, incoming)`
  unfoldable pub shallow_object_merge : Js N → Js N → Result LoadError (Js N)
  unfolding clone_onto clone_jsonish
  shallow_object_merge (obj es) (obj fs) = do
    out ← clone_onto es end
    merged ← clone_onto fs out
    ok (obj merged)
  shallow_object_merge existing incoming = clone_jsonish incoming

  -- `mergeWithStrategy(strategy, existing, incoming, ctx)`
  unfoldable pub merge_with_strategy :
      Option (MergeStrategy N) → Js N → Js N → Str → List (ContextLayer N) → Result LoadError (Js N)
  unfolding deep_merge shallow_object_merge clone_jsonish
  merge_with_strategy none existing incoming fixture layers = clone_jsonish incoming
  merge_with_strategy (some replace_with) existing incoming fixture layers = clone_jsonish incoming
  merge_with_strategy (some deep) existing incoming fixture layers = deep_merge incoming existing
  merge_with_strategy (some array_replace) existing incoming fixture layers =
      shallow_object_merge existing incoming
  merge_with_strategy (some (custom f)) existing incoming fixture layers =
      f existing incoming fixture layers
