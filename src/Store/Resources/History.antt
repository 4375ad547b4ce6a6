-- ===== src/Store/Resources/History.antt =====
-- The selected resource and the history of selections, `selectResource` of
-- renderer/store/slices/resourceSlice.ts. The code writes the kind into the object that it is given:
-- here the object with its kind takes its place.
pub mod Laws
mod Tests
use podscape.Common.{
  ℕ, String, Bool, not, Option, none, some, List, [], ◌∷◌, ◌==◌, if◌then◌else◌, find, filter, take,
  is_some, truthy, or_else,
}
use podscape.Store.Resources.{KubeResource, has_uid, kind_label}

pub record Selection : Type 0 where
  pub section : String
  pub selected_resource : Option KubeResource
  pub resource_history : List KubeResource

abbrev pub most : ℕ
most = 5

-- `r.kind = kindLabel(section)`, where it has none.
pub with_kind : String → KubeResource → KubeResource
with_kind section r = record r { kind = some (or_else (truthy r.kind) (kind_label section)) }

pub remember : KubeResource → List KubeResource → List KubeResource
remember r hs =
    if is_some (find (has_uid r.uid) hs)
    then r ∷ filter (λ h. not (has_uid r.uid h)) hs
    else take most (r ∷ hs)

pub select_resource : Option KubeResource → Selection → Selection
select_resource none s = record s { selected_resource = none }
select_resource (some r) s =
    let r' = with_kind s.section r in
    record s { selected_resource = some r'; resource_history = remember r' s.resource_history }
