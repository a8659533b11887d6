-- ===== src/Policy/Watchlists.antt =====
-- Watchlists: the entry (domain/policy.py), its repository
-- (infrastructure/persistence/policy_memory.py) and WatchlistService (application/policies.py).
-- M stands for the metadata, which is only carried. The plate normalizer, which the service is
-- given, is the parameter `normalize`: none stands for a plate that is not valid.
use vehicle_intelligence.Prelude.{
  ℕ, ◌+◌, Str, ◌==◌, codes, strip, is_empty, Dict, values, ltb, leb, not, select, take,
  if◌then◌else◌, Option, none, some, List, [], ◌∷◌, Bool, true, false, ◌&&◌, ◌||◌, Result, ok, err,
  ◌>>=◌, value_error,
}
use vehicle_intelligence.Persistence.Order.{str_lt}
use vehicle_intelligence.Persistence.Sorting.{newest_first}
use vehicle_intelligence.Policy.Versioned.{IsVersioned}
use vehicle_intelligence.Policy.Services.{create_built, update_built, delete_entry}

pub data WatchlistType : Type 0 where
  whitelist blacklist vip staff contractor delivery : WatchlistType

abbrev pub list_type_value : WatchlistType → Str
list_type_value whitelist = codes "WHITELIST"
list_type_value blacklist = codes "BLACKLIST"
list_type_value vip = codes "VIP"
list_type_value staff = codes "STAFF"
list_type_value contractor = codes "CONTRACTOR"
list_type_value delivery = codes "DELIVERY"

pub record WatchlistEntry (M : Type 0) : Type 0 where
  pub id : Str
  pub plate : Str
  pub list_type : WatchlistType
  pub enabled : Bool
  pub created_at : ℕ
  pub updated_at : ℕ
  pub valid_from : Option ℕ
  pub valid_until : Option ℕ
  pub metadata : M
  pub schema_version : ℕ
  pub revision : ℕ

pub record WatchlistCreate (M : Type 0) : Type 0 where
  pub plate : Str
  pub list_type : WatchlistType
  pub enabled : Bool
  pub valid_from : Option ℕ
  pub valid_until : Option ℕ
  pub metadata : M
  pub id : Option Str

pub record WatchlistUpdate (M : Type 0) : Type 0 where
  pub revision : ℕ
  pub plate : Str
  pub list_type : WatchlistType
  pub enabled : Bool
  pub valid_from : Option ℕ
  pub valid_until : Option ℕ
  pub metadata : M

-- both bounds are there, and valid_until <= valid_from
abbrev pub is_inverted : Option ℕ → Option ℕ → Bool
is_inverted (some valid_from) (some valid_until) = leb valid_until valid_from
is_inverted _ _ = false

abbrev pub has_begun : Option ℕ → ℕ → Bool
has_begun none timestamp = true
has_begun (some valid_from) timestamp = leb valid_from timestamp

abbrev pub has_time_left : Option ℕ → ℕ → Bool
has_time_left none timestamp = true
has_time_left (some valid_until) timestamp = leb timestamp valid_until

-- `command.id or self._id_factory()`
abbrev pub given_id : Option Str → Str → Str
given_id none fresh = fresh
given_id (some id) fresh = if is_empty id then fresh else id

abbrev pub same_type : Option WatchlistType → WatchlistType → Bool
same_type none list_type = true
same_type (some wanted) list_type = list_type_value wanted == list_type_value list_type

abbrev pub same_flag : Option Bool → Bool → Bool
same_flag none flag = true
same_flag (some true) flag = flag
same_flag (some false) flag = not flag

abbrev pub normalized_plate : Option Str → Result Str
normalized_plate none = err value_error
normalized_plate (some plate) = ok plate

module _ {M : Type 0} where
  -- WatchlistEntry.__post_init__
  unfoldable pub post_init : WatchlistEntry M → Result (WatchlistEntry M)
  post_init e =
      if is_empty (strip e.id) || is_empty (strip e.plate)
      then err value_error
      else if is_inverted e.valid_from e.valid_until
      then err value_error
      else if ltb e.schema_version 1 || ltb e.revision 1
      then err value_error
      else ok e

  unfoldable pub is_active_at : WatchlistEntry M → ℕ → Bool
  is_active_at e timestamp =
      e.enabled && has_begun e.valid_from timestamp && has_time_left e.valid_until timestamp

  abbrev pub entry_fields : IsVersioned (WatchlistEntry M)
  entry_fields = record { id_of = λ e. e.id; revision_of = λ e. e.revision }

  unfoldable pub list :
      Dict (WatchlistEntry M) → Option WatchlistType → Option Bool → ℕ → List (WatchlistEntry M)
  list entries list_type enabled limit = take limit (
      newest_first (λ e. record { time = e.updated_at; id = e.id })
        (select (λ e. same_type list_type e.list_type && same_flag enabled e.enabled)
          (values entries)))

  -- (list_type.value, id), compared as tuples
  abbrev pub type_lt : WatchlistEntry M → WatchlistEntry M → Bool
  type_lt a b =
      if list_type_value a.list_type == list_type_value b.list_type
      then str_lt a.id b.id
      else str_lt (list_type_value a.list_type) (list_type_value b.list_type)

  abbrev pub insert_by_type : WatchlistEntry M → List (WatchlistEntry M) → List (WatchlistEntry M)
  insert_by_type a [] = a ∷ []
  insert_by_type a (b ∷ bs) =
      let tail = insert_by_type a bs in if type_lt b a then b ∷ tail else a ∷ b ∷ bs

  abbrev pub sort_by_type : List (WatchlistEntry M) → List (WatchlistEntry M)
  sort_by_type [] = []
  sort_by_type (a ∷ rest) = insert_by_type a (sort_by_type rest)

  unfoldable pub find_active_by_plate : Dict (WatchlistEntry M) → Str → ℕ → List (WatchlistEntry M)
  find_active_by_plate entries plate timestamp =
      sort_by_type (select (λ e. (e.plate == plate) && is_active_at e timestamp) (values entries))

  module _ (normalize : Str → Option Str) where
    unfoldable pub new_entry : WatchlistCreate M → Str → ℕ → Result (WatchlistEntry M)
    new_entry command fresh_id now = do
      plate ← normalized_plate (normalize command.plate)
      post_init (record {
        id = strip (given_id command.id fresh_id);
        plate = plate;
        list_type = command.list_type;
        enabled = command.enabled;
        created_at = now;
        updated_at = now;
        valid_from = command.valid_from;
        valid_until = command.valid_until;
        metadata = command.metadata;
        schema_version = 1;
        revision = 1;
      })

    unfoldable pub updated_entry :
        WatchlistUpdate M → ℕ → WatchlistEntry M → Result (WatchlistEntry M)
    updated_entry command now current = do
      plate ← normalized_plate (normalize command.plate)
      post_init (record {
        id = current.id;
        plate = plate;
        list_type = command.list_type;
        enabled = command.enabled;
        created_at = current.created_at;
        updated_at = now;
        valid_from = command.valid_from;
        valid_until = command.valid_until;
        metadata = command.metadata;
        schema_version = current.schema_version;
        revision = current.revision + 1;
      })

    unfoldable pub create_entry :
        Dict (WatchlistEntry M)
        → WatchlistCreate M
        → Str
        → ℕ
        → Result (WatchlistEntry M × Dict (WatchlistEntry M))
    create_entry entries command fresh_id now =
        create_built entry_fields entries (new_entry command fresh_id now)

    unfoldable pub update_entry :
        Dict (WatchlistEntry M)
        → Dict (WatchlistEntry M)
        → Str
        → WatchlistUpdate M
        → ℕ
        → Result (WatchlistEntry M × Dict (WatchlistEntry M))
    update_entry seen entries entry_id command now =
        update_built entry_fields seen entries entry_id command.revision (updated_entry command now)

  unfoldable pub delete_watchlist : Dict (WatchlistEntry M) → Str → Result (Dict (WatchlistEntry M))
  delete_watchlist entries entry_id = delete_entry entry_fields entries entry_id
