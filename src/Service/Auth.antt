-- ===== src/Service/Auth.antt =====
-- An anchor that serves a service carries its authorization, or is not used for it.
use zss.Prelude.{
  none, ◌≤◌, ℕ, ◌<◌, ◌≡◌, refl, true, false, Option, some, length, Bytes, arith, ◌⊎◌, inr,
}
use zss.Service.{
  Service, ServiceAnchor, zis_service_use_specific_auth, zis_create_service_anchor,
  zis_update_service_anchor, is_service_anchor_compatible, saf_class_size, saf_entity_size,
}

-- The anchor acts for the service: same flags, function and version, and if the service needs a
-- specific authorization, its class and entity.
pub record ActsFor (s : Service) (a : ServiceAnchor) : Type 0 where
  pub space_switch : a.flags.space_switch ≡ s.flags.space_switch
  pub specific_auth : a.flags.specific_auth ≡ s.flags.specific_auth
  pub serve : a.serve ≡ s.serve
  pub service_version : a.service_version ≡ s.service_version
  pub class_name : (s.flags.specific_auth ≡ false) ⊎ (a.saf_class_name ≡ s.saf_class_name)
  pub entity_name : (s.flags.specific_auth ≡ false) ⊎ (a.saf_entity_name ≡ s.saf_entity_name)

pub zis_create_service_anchor-ActsFor :
    (plugin_name : Bytes) (p : Option ℕ) (s : Service)
    → ActsFor s (zis_create_service_anchor plugin_name p s)
unfolding zis_create_service_anchor
zis_create_service_anchor-ActsFor plugin_name p s = record {
  space_switch = refl;
  specific_auth = refl;
  serve = refl;
  service_version = refl;
  class_name = inr refl;
  entity_name = inr refl;
}

-- An anchor that passed `isServiceAnchorCompatible` acts for the service once it is updated.
pub zis_update_service_anchor-ActsFor :
    (s : Service) (a : ServiceAnchor)
    → is_service_anchor_compatible s a ≡ true
    → ActsFor s (zis_update_service_anchor a s)
unfolding zis_update_service_anchor is_service_anchor_compatible
zis_update_service_anchor-ActsFor s a h = record {
  space_switch = ground arith;
  specific_auth = ground arith;
  serve = ground arith;
  service_version = ground arith;
  class_name = ground arith;
  entity_name = ground arith;
}

-- `zisServiceUseSpecificAuth` refuses a name that does not fit its field with a NUL; otherwise the
-- service has both names and demands them, and nothing else of it is changed.
zis_service_use_specific_auth_lem :
    (s : Service) (class_name entity_name : Bytes)
    → (((saf_class_size ≤ length class_name) ⊎ (saf_entity_size ≤ length entity_name))
        × (zis_service_use_specific_auth s class_name entity_name ≡ none))
      ⊎ ((length class_name < saf_class_size)
          × (length entity_name < saf_entity_size)
          × (zis_service_use_specific_auth s class_name entity_name
              ≡ some (record s {
                saf_class_name = class_name;
                saf_entity_name = entity_name;
                flags = record { space_switch = s.flags.space_switch; specific_auth = true };
              })))
unfolding zis_service_use_specific_auth
zis_service_use_specific_auth_lem s class_name entity_name = ground arith
