-- ===== src/Topology.antt =====
-- The camera topology: domain/topology.py, infrastructure/persistence/topology_memory.py and the
-- service of application/topology.py. A travel time is a count of microseconds (the source has
-- floats, and refuses negative ones); M stands for the metadata, which is only carried.
pub mod Edges
pub mod History
use vehicle_intelligence.Prelude.{
  ℕ, ◌+◌, Str, ◌==◌, strip, is_empty, Dict, get, put, pop, contains, values, eqb, ltb, leb, not,
  any, select, take, if◌then◌else◌, Option, none, some, List, [], ◌∷◌, Bool, true, false, ◌&&◌,
  ◌||◌, Result, ok, err, ◌>>=◌, Done, done, value_error, topology_conflict, topology_not_found,
}
use vehicle_intelligence.Persistence.Order.{str_lt}

pub record CameraTopologyEdge (M : Type 0) : Type 0 where
  pub id : Str
  pub from_camera_id : Str
  pub to_camera_id : Str
  pub minimum_travel : ℕ
  pub maximum_travel : ℕ
  pub typical_travel : ℕ
  pub enabled : Bool
  pub created_at : ℕ
  pub updated_at : ℕ
  pub revision : ℕ
  pub schema_version : ℕ
  pub metadata : M

pub record TopologyCreate (M : Type 0) : Type 0 where
  pub id : Str
  pub from_camera_id : Str
  pub to_camera_id : Str
  pub minimum_travel : ℕ
  pub maximum_travel : ℕ
  pub typical_travel : ℕ
  pub enabled : Bool
  pub metadata : M

pub record TopologyUpdate (M : Type 0) : Type 0 where
  pub revision : ℕ
  pub from_camera_id : Str
  pub to_camera_id : Str
  pub minimum_travel : ℕ
  pub maximum_travel : ℕ
  pub typical_travel : ℕ
  pub enabled : Bool
  pub metadata : M

-- `wanted is None or value == wanted`
abbrev pub is_wanted : Option Str → Str → Bool
is_wanted none value = true
is_wanted (some wanted) value = value == wanted

module _ {M : Type 0} where
  -- CameraTopologyEdge.__post_init__
  unfoldable pub post_init : CameraTopologyEdge M → Result (CameraTopologyEdge M)
  post_init e =
      if is_empty (strip e.id)
        || is_empty (strip e.from_camera_id)
        || is_empty (strip e.to_camera_id)
      then err value_error
      else if e.from_camera_id == e.to_camera_id
      then err value_error
      else if leb e.maximum_travel e.minimum_travel
      then err value_error
      else if not (leb e.minimum_travel e.typical_travel && leb e.typical_travel e.maximum_travel)
      then err value_error
      else if ltb e.updated_at e.created_at
      then err value_error
      else if ltb e.revision 1 || ltb e.schema_version 1
      then err value_error
      else ok e

  -- the same direction between the same cameras
  unfoldable pub same_route : CameraTopologyEdge M → CameraTopologyEdge M → Bool
  same_route existing edge =
      (existing.from_camera_id == edge.from_camera_id)
      && (existing.to_camera_id == edge.to_camera_id)

  -- InMemoryCameraTopologyRepository
  unfoldable pub create :
      Dict (CameraTopologyEdge M) → CameraTopologyEdge M → Bool × Dict (CameraTopologyEdge M)
  create edges edge =
      if contains edges edge.id || any (λ existing. same_route existing edge) (values edges)
      then (false, edges)
      else (true, put edges edge.id edge)

  abbrev pub has_revision : Option (CameraTopologyEdge M) → ℕ → Bool
  has_revision none expected = false
  has_revision (some current) expected = eqb current.revision expected

  unfoldable pub replace :
      Dict (CameraTopologyEdge M)
      → CameraTopologyEdge M
      → ℕ
      → Result (Bool × Dict (CameraTopologyEdge M))
  replace edges edge expected_revision =
      if not (eqb edge.revision (expected_revision + 1))
      then err value_error
      else if not (has_revision (get edges edge.id) expected_revision)
      then ok (false, edges)
      else if any (λ existing. not (existing.id == edge.id) && same_route existing edge)
          (values edges)
      then ok (false, edges)
      else ok (true, put edges edge.id edge)

  unfoldable pub delete : Dict (CameraTopologyEdge M) → Str → Bool × Dict (CameraTopologyEdge M)
  delete edges edge_id = (contains edges edge_id, pop edges edge_id)

  -- (from_camera_id, to_camera_id, id), compared as tuples
  abbrev pub route_lt : CameraTopologyEdge M → CameraTopologyEdge M → Bool
  route_lt a b =
      if a.from_camera_id == b.from_camera_id
      then (if a.to_camera_id == b.to_camera_id
          then str_lt a.id b.id
          else str_lt a.to_camera_id b.to_camera_id)
      else str_lt a.from_camera_id b.from_camera_id

  abbrev pub insert_route :
      CameraTopologyEdge M → List (CameraTopologyEdge M) → List (CameraTopologyEdge M)
  insert_route a [] = a ∷ []
  insert_route a (b ∷ bs) =
      let tail = insert_route a bs in if route_lt b a then b ∷ tail else a ∷ b ∷ bs

  abbrev pub sort_routes : List (CameraTopologyEdge M) → List (CameraTopologyEdge M)
  sort_routes [] = []
  sort_routes (a ∷ rest) = insert_route a (sort_routes rest)

  unfoldable pub list :
      Dict (CameraTopologyEdge M)
      → Option Str
      → Option Str
      → Bool
      → ℕ
      → Result (List (CameraTopologyEdge M))
  list edges from_camera_id to_camera_id enabled_only limit =
      if not (leb 1 limit && leb limit 1000)
      then err value_error
      else ok (
          take limit (
            sort_routes (
              select
                (λ edge.
                  is_wanted from_camera_id edge.from_camera_id
                  && is_wanted to_camera_id edge.to_camera_id
                  && (not enabled_only || edge.enabled))
                (values edges))))

  -- CameraTopologyService
  abbrev pub stored :
      CameraTopologyEdge M
      → Bool × Dict (CameraTopologyEdge M)
      → Result (CameraTopologyEdge M × Dict (CameraTopologyEdge M))
  stored edge (true, edges) = ok (edge, edges)
  stored edge (false, edges) = err topology_conflict

  unfoldable pub new_edge : TopologyCreate M → ℕ → CameraTopologyEdge M
  new_edge command now = record {
    id = strip command.id;
    from_camera_id = strip command.from_camera_id;
    to_camera_id = strip command.to_camera_id;
    minimum_travel = command.minimum_travel;
    maximum_travel = command.maximum_travel;
    typical_travel = command.typical_travel;
    enabled = command.enabled;
    created_at = now;
    updated_at = now;
    revision = 1;
    schema_version = 1;
    metadata = command.metadata;
  }

  unfoldable pub create_edge :
      Dict (CameraTopologyEdge M)
      → TopologyCreate M
      → ℕ
      → Result (CameraTopologyEdge M × Dict (CameraTopologyEdge M))
  create_edge edges command now = do
    edge ← post_init (new_edge command now)
    stored edge (create edges edge)

  -- CameraTopologyService.get
  unfoldable pub required : Option (CameraTopologyEdge M) → Result (CameraTopologyEdge M)
  required none = err topology_not_found
  required (some edge) = ok edge

  unfoldable pub updated_edge : CameraTopologyEdge M → TopologyUpdate M → ℕ → CameraTopologyEdge M
  updated_edge current command now = record {
    id = current.id;
    from_camera_id = strip command.from_camera_id;
    to_camera_id = strip command.to_camera_id;
    minimum_travel = command.minimum_travel;
    maximum_travel = command.maximum_travel;
    typical_travel = command.typical_travel;
    enabled = command.enabled;
    created_at = current.created_at;
    updated_at = now;
    revision = current.revision + 1;
    schema_version = current.schema_version;
    metadata = command.metadata;
  }

  abbrev pub checked_revision : CameraTopologyEdge M → ℕ → Result Done
  checked_revision current revision =
      if eqb current.revision revision then ok done else err topology_conflict

  -- `seen` is the repository when the edge is read, `edges` when it is written
  unfoldable pub update_edge :
      Dict (CameraTopologyEdge M)
      → Dict (CameraTopologyEdge M)
      → Str
      → TopologyUpdate M
      → ℕ
      → Result (CameraTopologyEdge M × Dict (CameraTopologyEdge M))
  update_edge seen edges edge_id command now = do
    current ← required (get seen edge_id)
    _ ← checked_revision current command.revision
    updated ← post_init (updated_edge current command now)
    outcome ← replace edges updated current.revision
    stored updated outcome

  unfoldable pub delete_edge :
      Dict (CameraTopologyEdge M) → Str → Result (Dict (CameraTopologyEdge M))
  delete_edge edges edge_id =
      let outcome = delete edges edge_id in
      if outcome.0 then ok outcome.1 else err topology_not_found
