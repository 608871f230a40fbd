-- ===== src/Sealing/Columns.antt =====
-- The walks of the sealed columns: each maps the secrets of what it holds, and so fuses and refines.
use turncall.Prelude.{String, ◌≡◌, refl, sym, ◌∙◌, ap, Option, none, some}
use turncall.Json.{Json, obj, field, end, get, ◌>>=◌, try_fields}
use turncall.Json.Passes.{
  and_then, Fuses, Refines, Total, try_fields-Fuses, try_dict-Fuses, try_at-Fuses,
  try_fields-Refines, try_dict-Refines, try_at-Refines, try_fields-Total, try_dict-Total,
  try_at-Total, try_fields-Same, try_dict-Same, try_at-Same, Same,
}
use turncall.Secrets.Mapped.{
  item, map_field, map_secrets, map_tools, map_under, map_inline_target, map_dynamic_config,
}
use turncall.Secrets.Fused.{KeepsNonempty, map_field-Fuses, map_secrets-Fuses}
use turncall.Secrets.Refined.{map_field-Refines, map_secrets-Refines}
use turncall.Secrets.Total.{map_field-Total, map_secrets-Total}
use turncall.Secrets.Same.{map_field-Same, map_secrets-Same}
use turncall.Sealing.{Column, agent_config, tools, target, metadata, walk}

picked_tools :
    (o : Option Json)
    → (((o >>= λ v. some (field "tools" v end)) >>= λ d. some (obj d)) >>= item "tools") ≡ o
unfolding item get
picked_tools none = refl
picked_tools (some v) = refl

-- A tool list is mapped as the `tools` of a config.
map_tools_lem : (f : String → Option String) (v : Json) → map_tools f v ≡ map_field f "tools" v
unfolding map_tools map_secrets try_fields
map_tools_lem f v = picked_tools (map_field f "tools" v)

bind-ext :
    (o : Option Json) (g h : Json → Option Json) → ((a : Json) → g a ≡ h a) → (o >>= g) ≡ (o >>= h)
bind-ext none g h p = refl
bind-ext (some a) g h p = p a

module _ (f g : String → Option String) where
  module _ (keeps : KeepsNonempty f) where
    map_tools-Fuses : Fuses (map_tools f) (map_tools g) (map_tools (and_then f g))
    map_tools-Fuses v =
        ap (λ o. o >>= map_tools g) (map_tools_lem f v)
        ∙ bind-ext (map_field f "tools" v) (map_tools g) (map_field g "tools") (map_tools_lem g)
        ∙ map_field-Fuses f g keeps "tools" v
        ∙ sym (map_tools_lem (and_then f g) v)

    map_under-Fuses :
        (key : String) → Fuses (map_under f key) (map_under g key) (map_under (and_then f g) key)
    unfolding map_under
    map_under-Fuses key =
        try_dict-Fuses _ _ _
          (try_fields-Fuses _ _ _ (try_at-Fuses key _ _ _ (map_secrets-Fuses f g keeps)))

    pub walk-Fuses : (c : Column) → Fuses (walk c f) (walk c g) (walk c (and_then f g))
    unfolding walk map_inline_target map_dynamic_config
    walk-Fuses agent_config = map_secrets-Fuses f g keeps
    walk-Fuses tools = map_tools-Fuses
    walk-Fuses target = map_under-Fuses "agent"
    walk-Fuses metadata = map_under-Fuses "dynamic_config"

  module _ (h : Refines f g) where
    map_under-Refines : (key : String) → Refines (map_under f key) (map_under g key)
    unfolding map_under
    map_under-Refines key =
        try_dict-Refines _ _
          (try_fields-Refines _ _ (try_at-Refines key _ _ (map_secrets-Refines f g h)))

    pub walk-Refines : (c : Column) → Refines (walk c f) (walk c g)
    unfolding walk map_inline_target map_dynamic_config
    walk-Refines agent_config = map_secrets-Refines f g h
    walk-Refines tools = λ v b e.
        map_tools_lem g v ∙ map_field-Refines f g h "tools" v b (sym (map_tools_lem f v) ∙ e)
    walk-Refines target = map_under-Refines "agent"
    walk-Refines metadata = map_under-Refines "dynamic_config"

module _ (f : String → Option String) (t : Total f) where
  map_under-Total : (key : String) → Total (map_under f key)
  unfolding map_under
  map_under-Total key =
      try_dict-Total _ (try_fields-Total _ (try_at-Total key _ (map_secrets-Total f t)))

  pub walk-Total : (c : Column) → Total (walk c f)
  unfolding walk map_inline_target map_dynamic_config
  walk-Total agent_config = map_secrets-Total f t
  walk-Total tools = λ v. rw (map_tools_lem f v) (map_field-Total f t "tools" v)
  walk-Total target = map_under-Total "agent"
  walk-Total metadata = map_under-Total "dynamic_config"

module _ (f : String → Option String) (t : Same f) where
  map_under-Same : (key : String) → Same (map_under f key)
  unfolding map_under
  map_under-Same key =
      try_dict-Same _ (try_fields-Same _ (try_at-Same key _ (map_secrets-Same f t)))

  pub walk-Same : (c : Column) → Same (walk c f)
  unfolding walk map_inline_target map_dynamic_config
  walk-Same agent_config = map_secrets-Same f t
  walk-Same tools = λ v. rw (map_tools_lem f v) (map_field-Same f t "tools" v)
  walk-Same target = map_under-Same "agent"
  walk-Same metadata = map_under-Same "dynamic_config"
