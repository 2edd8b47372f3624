-- ===== src/Tests/SessionRuns.antt =====
-- Session records and their store.
use boxwarden.Prelude.{err, ok, refl, ◌≡◌, ◌≢◌, ◌⊎◌}
use boxwarden.Session.Decode.{decode_record}
use boxwarden.Session.Decode.Marshal.{IsText, marshal_record}
use boxwarden.Session.Decode.RoundTrip.{decode_record-marshal_record}
use boxwarden.Session.Decode.Sound.{decode_record-IsValid}
use boxwarden.Session.Decode.Valid.{IsValid}
use boxwarden.Session.Store.{load_record, save_record, upgrade_record_for_store}
use boxwarden.Session.Store.Atomic.{save_record-atomic}
use boxwarden.Tests.Sample.{dev, empty_world, legacy_dev, plain, session_code, stopped_dev, work}

stopped_dev-reads_back : decode_record (marshal_record plain stopped_dev) ≡ ok stopped_dev
unfolding session_code
stopped_dev-reads_back = refl

decode_record-IsValid_example : IsValid stopped_dev
decode_record-IsValid_example =
    decode_record-IsValid (marshal_record plain stopped_dev) stopped_dev-reads_back

stopped_dev-IsText : IsText plain stopped_dev
stopped_dev-IsText = record {
  domain_text = refl;
  name_text = refl;
  id_text = refl;
  mode_is_text = refl;
  state_is_text = refl;
  kind_text = refl;
  object_text = refl;
  golden_text = refl;
  intent_text = refl;
  generation_text = refl;
  status_is_text = refl;
  diagnostic_text = refl;
}

decode_record-marshal_record_example :
    decode_record (marshal_record plain stopped_dev) ≡ ok stopped_dev
decode_record-marshal_record_example =
    decode_record-marshal_record plain stopped_dev stopped_dev-IsText
      (decode_record-IsValid (marshal_record plain stopped_dev) stopped_dev-reads_back)

legacy-saves : (save_record plain work legacy_dev empty_world).0 ≡ ok tt
unfolding session_code
legacy-saves = refl

save_record-atomic_example :
    (((save_record plain work legacy_dev empty_world).0 ≡ err)
      × (load_record work work (save_record plain work legacy_dev empty_world).1
          ≡ load_record work work empty_world))
    ⊎ ((load_record work dev (save_record plain work legacy_dev empty_world).1
          ≡ ok (upgrade_record_for_store legacy_dev))
        × (dev ≢ work
            → load_record work work (save_record plain work legacy_dev empty_world).1
              ≡ load_record work work empty_world))
save_record-atomic_example = save_record-atomic plain work work work legacy_dev empty_world
