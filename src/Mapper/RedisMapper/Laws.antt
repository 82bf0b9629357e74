-- ===== src/Mapper/RedisMapper/Laws.antt =====
-- Mappings are written, read and deleted by merchant and terminal.
use poselink_api_middleware.Common.{
  ◌<>◌, ◌≡◌, String, none, some, ok, err, eq_iff, str_eq, if◌then◌else◌, arith, ◌&&◌,
}
use poselink_api_middleware.Redis.{Redis, IsLawful}
use poselink_api_middleware.Mapper.Keys.{mapping_key, mapping_key_injective, NoColon}
use poselink_api_middleware.Mapper.RedisMapper.{get_serial_number, set_mapping, delete_mapping}

-- Equal keys are equal pairs.
mapping_key_test :
    (mid tid mid' tid' : String)
    → NoColon mid
    → NoColon mid'
    → str_eq (mapping_key mid' tid') (mapping_key mid tid) ≡ (str_eq mid' mid && str_eq tid' tid)
mapping_key_test mid tid mid' tid' h k = ground (
  arith,
  eq_iff (mapping_key mid' tid') (mapping_key mid tid),
  eq_iff mid' mid,
  eq_iff tid' tid,
  mapping_key_injective mid' tid' mid tid k h,
)

module _ {W : Type 0} (R : Redis W) (L : IsLawful R) where
  get_serial_number-content :
      (w : W) (mid tid : String)
      → L.down w ≡ none
      → get_serial_number R w mid tid ≡ elim (L.content w (mapping_key mid tid)) [
        | none ↦ err ("unknown mid/tid combination: " <> mid <> ":" <> tid)
        | some serial ↦ ok serial
      ]
  unfolding get_serial_number
  get_serial_number-content w mid tid up = ground (arith, L.get-reply w (mapping_key mid tid))

  -- On a lawful Redis, after a mapping is set without an error, a lookup of it gives its serial number; a
  -- lookup of any other merchant or terminal gives what it gave before. No merchant's name holds a colon.
  pub get_serial_number-set_mapping :
      (w : W) (mid tid serial mid' tid' : String)
      → NoColon mid
      → NoColon mid'
      → (set_mapping R w mid tid serial).1 ≡ ok tt
      → get_serial_number R (set_mapping R w mid tid serial).0 mid' tid' ≡ (
          if str_eq mid' mid && str_eq tid' tid then ok serial else get_serial_number R w mid' tid')
  unfolding set_mapping get_serial_number
  get_serial_number-set_mapping w mid tid serial mid' tid' h k done =
      let key = mapping_key mid tid in
      let written : (R.set w key serial 0).1 ≡ none = ground arith in
      ground (
        arith,
        L.set-down w key serial 0 written,
        L.set-content w key serial 0 (mapping_key mid' tid') written,
        mapping_key_test mid tid mid' tid' h k,
        L.get-reply w (mapping_key mid' tid'),
        L.get-reply (R.set w key serial 0).0 (mapping_key mid' tid'),
      )

  -- On a lawful Redis, after a mapping is deleted without an error, a lookup of it fails with its text; any
  -- other gives what it gave before. No merchant's name holds a colon.
  pub get_serial_number-delete_mapping :
      (w : W) (mid tid mid' tid' : String)
      → NoColon mid
      → NoColon mid'
      → (delete_mapping R w mid tid).1 ≡ ok tt
      → get_serial_number R (delete_mapping R w mid tid).0 mid' tid' ≡ (
          if str_eq mid' mid && str_eq tid' tid
          then err ("unknown mid/tid combination: " <> mid' <> ":" <> tid')
          else get_serial_number R w mid' tid')
  unfolding delete_mapping get_serial_number
  get_serial_number-delete_mapping w mid tid mid' tid' h k done =
      let key = mapping_key mid tid in
      let written : (R.del w key).1 ≡ none = ground arith in
      ground (
        arith,
        L.del-down w key written,
        L.del-content w key (mapping_key mid' tid') written,
        mapping_key_test mid tid mid' tid' h k,
        L.get-reply w (mapping_key mid' tid'),
        L.get-reply (R.del w key).0 (mapping_key mid' tid'),
      )
