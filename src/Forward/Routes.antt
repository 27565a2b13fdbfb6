-- ===== src/Forward/Routes.antt =====
-- The classes of paths below a user and the keys of the guards' maps.
use Prim.Native.String.{◌++◌}
use fedi.Base.{Bool, ◌||◌, Option, none, some, String, str_eq, if◌then◌else◌, is_some}
use fedi.Text.{codes, starts_with}

pub data ForwardRouteClass : Type 0 where
  internal : ForwardRouteClass
  actor : ForwardRouteClass
  collection : ForwardRouteClass
  other : ForwardRouteClass

unfoldable pub collection_kind_from_path : (user path : String) → Option String
collection_kind_from_path user path =
    if str_eq path ("/users/" ++ user ++ "/outbox")
    then some "outbox"
    else if str_eq path ("/users/" ++ user ++ "/followers")
    then some "followers"
    else if str_eq path ("/users/" ++ user ++ "/following")
    then some "following"
    else if str_eq path ("/users/" ++ user ++ "/collections/featured")
    then some "collections/featured"
    else none

has_prefix : (path prefix : String) → Bool
unfolding starts_with
has_prefix path prefix = starts_with (codes path) (codes prefix)

unfoldable pub classify_forward_route : (user path : String) → ForwardRouteClass
unfolding has_prefix starts_with collection_kind_from_path
classify_forward_route user path =
    if has_prefix path ("/users/" ++ user ++ "/_fedi3/")
    then ForwardRouteClass.internal
    else if str_eq path ("/users/" ++ user)
    then ForwardRouteClass.actor
    else if is_some (collection_kind_from_path user path)
    then ForwardRouteClass.collection
    else ForwardRouteClass.other

unfoldable pub is_public_ap_get_path : (user path : String) → Bool
unfolding has_prefix starts_with collection_kind_from_path
is_public_ap_get_path user path =
    str_eq path ("/users/" ++ user)
    || is_some (collection_kind_from_path user path)
    || has_prefix path ("/users/" ++ user ++ "/objects/")
    || has_prefix path ("/users/" ++ user ++ "/activities/")

abbrev pub key_of_class : ForwardRouteClass → (user path : String) → Option String
key_of_class ForwardRouteClass.internal user path = some (user ++ ":" ++ path)
key_of_class ForwardRouteClass.actor user path = some (user ++ ":" ++ path)
key_of_class ForwardRouteClass.collection user path = some (user ++ ":" ++ path)
key_of_class ForwardRouteClass.other user path = none

unfoldable pub tunnel_negative_cache_key : (user path : String) → Option String
unfolding classify_forward_route
tunnel_negative_cache_key user path = key_of_class (classify_forward_route user path) user path

unfoldable pub forward_retry_budget_key : (user path : String) → Option String
unfolding tunnel_negative_cache_key
forward_retry_budget_key = tunnel_negative_cache_key

unfoldable pub tunnel_unknown_user_cache_key : (ip user : String) → String
tunnel_unknown_user_cache_key ip user = ip ++ ":" ++ user
