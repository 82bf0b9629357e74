-- ===== src/Handlers/Admin/Migration/Unread.antt =====
-- A migration whose read fails while its write does not.
use poselink_api_middleware.Common.{
  ◌+◌, ◌≡◌, ◌∙◌, refl, ap, String, some, false, [], ◌∷◌, ok, err, arith, eq_refl, Done,
}
use poselink_api_middleware.Redis.{Redis, IsLawful, failed}
use poselink_api_middleware.Mapper.Keys.{mapping_key}
use poselink_api_middleware.Mapper.RedisMapper.{get_serial_number, set_mapping}
use poselink_api_middleware.Common.Decimal.{split}
use poselink_api_middleware.Handlers.Admin.Migration.{
  Migration, migrate_entry, migrate_parts, unless_there, write, stored, read,
}
use poselink_api_middleware.Handlers.Admin.Migration.Entries.{set-content}

module _ {W : Type 0} {R : Redis W} (L : IsLawful R) (before_get before_set : String → W → W) where
  stored-ok :
      (mid tid : String) (m : Migration W) (r : W × Done)
      → r.1 ≡ ok tt
      → stored R before_get before_set false mid tid m r
        ≡ record m { world = r.0; success_count = m.success_count + 1 }
  unfolding stored
  stored-ok mid tid m (w, ok done) e = refl
  stored-ok mid tid m (w, err message) e = cc

  -- On a lawful Redis, where the read of an entry fails because Redis is not reached, and its write succeeds,
  -- a migration without `force` writes the serial number of the configuration, whatever mapping was there, and
  -- counts a success and no error.
  pub migrate_entry-overwrites :
      (key mid tid serial e : String) (m : Migration W)
      → split b':' key ≡ mid ∷ (tid ∷ [])
      → L.down (before_get key m.world) ≡ some e
      → (set_mapping R (before_set key (before_get key m.world)) mid tid serial).1 ≡ ok tt
      → (L.content
            (migrate_entry R before_get before_set false key serial m).world
            (mapping_key mid tid)
          ≡ some serial)
        × ((migrate_entry R before_get before_set false key serial m).success_count
            ≡ m.success_count + 1)
        × ((migrate_entry R before_get before_set false key serial m).error_count ≡ m.error_count)
  unfolding migrate_entry migrate_parts unless_there read get_serial_number write
  migrate_entry-overwrites key mid tid serial e m parts lost done =
      let w = before_get key m.world in
      let here = mapping_key mid tid in
      let unread : R.get w here ≡ err (failed e) = ground (arith, L.get-reply w here, lost) in
      let final : migrate_entry R before_get before_set false key serial m
          ≡ write R before_get before_set false mid tid key serial
              (read R before_get before_set false key m) =
        rw (parts, migrate_entry, migrate_parts, unread, get_serial_number) refl in
      let r = set_mapping R (before_set key w) mid tid serial in
      let counted : migrate_entry R before_get before_set false key serial m
          ≡ record m { world = r.0; success_count = m.success_count + 1 } =
        final ∙ (stored-ok mid tid (read R before_get before_set false key m) r done) in
      let there : L.content r.0 here ≡ some serial =
        set-content L before_get before_set (before_set key w) mid tid serial done here
        ∙ rw (eq_refl here) refl in
      (
        ap (λ (n : Migration W). L.content n.world here) counted ∙ there,
        ap Migration.success_count counted,
        ap Migration.error_count counted,
      )
