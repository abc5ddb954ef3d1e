-- ===== src/Api/Contract.antt =====
-- The calls of api.service.ts keep to the service's definition in api.ts.
use hdns.Prelude.{
  String, Option, none, some, str_eq, if◌then◌else◌, ◌≡◌, refl, false, List, [], ◌∷◌,
}
use hdns.Model.Methods.{MethodKey, MessageType, methods, all_methods}
use hdns.Api.{
  Call, StreamCall, Body, key, stream_key, body, path, zone_query, request, record_body,
  record_delete, configuration, task, task_delete, empty,
}
use hdns.Api

-- The message that a body is.
unfoldable pub message_type : Body → MessageType
message_type (zone_query _ _) = MessageType.record_type
message_type (request _) = MessageType.request
message_type (record_body _) = MessageType.record_type
message_type (record_delete _) = MessageType.record_delete
message_type (configuration _) = MessageType.configuration
message_type (task _) = MessageType.task
message_type (task_delete _) = MessageType.task_delete
message_type empty = MessageType.empty

-- Each call that is answered once passes a message of the type that the service's definition has
-- for its method, and the definition says that neither side of the method is a stream.
pub body-IsDeclared :
    (c : Call)
    → (message_type (body c) ≡ (methods (key c)).request_type)
      × ((methods (key c)).request_stream ≡ false)
      × ((methods (key c)).response_stream ≡ false)
unfolding message_type body key methods
body-IsDeclared (Api.get_zones _ _) = (refl, refl, refl)
body-IsDeclared _ = (refl, refl, refl)

-- The first method of a list whose path is the given one.
lookup : String → List MethodKey → Option MethodKey
lookup p [] = none
lookup p (k ∷ ks) = let rest = lookup p ks in if str_eq (path k) p then some k else rest

lookup-path : (k : MethodKey) → lookup (path k) all_methods ≡ some k
unfolding lookup path
lookup-path MethodKey.get_zones = refl
lookup-path _ = refl

-- No two methods of the service have one path.
pub path-injective : (j k : MethodKey) → path j ≡ path k → j ≡ k
path-injective j k e = cc (lookup-path j, lookup-path k)
