-- ===== src/ObjectMeta.antt =====
-- pkg/objectmeta/deletion.go: the annotations that keep a resource in Keycloak when its object goes.
use keycloak_config_sync_ope.Base.{Bool, ◌||◌, String, ◌==◌, or_empty}
use keycloak_config_sync_ope.Base.Dict
use keycloak_config_sync_ope.Base.Dict.{Dict}

abbrev pub preserve_resources_on_deletion_annotation : String
preserve_resources_on_deletion_annotation = "idp.edenlab.io/preserve-resources-on-deletion"

abbrev pub preserve_resources_no_delete_annotation : String
preserve_resources_no_delete_annotation = "idp.edenlab.io/preserve-resources-no-delete"

-- A missing annotation reads as the empty text.
unfoldable pub preserve_resources_on_deletion : Dict String → Bool
preserve_resources_on_deletion annotations =
    or_empty (Dict.lookup preserve_resources_on_deletion_annotation annotations) == "true"
    || or_empty (Dict.lookup preserve_resources_no_delete_annotation annotations) == "true"
