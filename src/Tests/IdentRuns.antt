-- ===== src/Tests/IdentRuns.antt =====
-- Identifiers.
use boxwarden.Prelude.{Bytes, [], arith, codes, err, ok, refl, true, ◌∷◌, ◌≡◌}
use boxwarden.Ident.{object_id_for, parse_domain, parse_name, valid_backend_object_id, valid_uuid}
use boxwarden.Ident.Hex.{IsVersion4, new_id, new_id-IsVersion4}
use boxwarden.Ident.ObjectId.{object_id_for-injective, object_id_for-valid}
use boxwarden.Tests.Sample.{uuid_a, work}

new_id-IsVersion4_example :
    (id : Bytes) × (new_id
        (1 ∷ 2 ∷ 3 ∷ 4 ∷ 5 ∷ 6 ∷ 7 ∷ 8 ∷ 9 ∷ 10 ∷ 11 ∷ 12 ∷ 13 ∷ 14 ∷ 15 ∷ 255 ∷ [])
      ≡ ok id)
    × IsVersion4 id
new_id-IsVersion4_example =
    new_id-IsVersion4 (1 ∷ 2 ∷ 3 ∷ 4 ∷ 5 ∷ 6 ∷ 7 ∷ 8 ∷ 9 ∷ 10 ∷ 11 ∷ 12 ∷ 13 ∷ 14 ∷ 15 ∷ 255 ∷ [])
      (omega arith) (omega arith)

object_id_for-valid_example : valid_backend_object_id (object_id_for work uuid_a) ≡ true
object_id_for-valid_example =
    object_id_for-valid work uuid_a (unfold parse_domain in refl) (unfold valid_uuid in refl)

object_id_for-injective_example : (work ≡ work) × (uuid_a ≡ uuid_a)
object_id_for-injective_example =
    object_id_for-injective work work uuid_a uuid_a (unfold parse_domain in refl)
      (unfold parse_domain in refl) (unfold valid_uuid in refl) (unfold valid_uuid in refl) refl

object_id_run : object_id_for work uuid_a ≡ codes "boxwarden-work-0123abcd45674abc8def0123456789ab"
unfolding object_id_for
object_id_run = refl

names_run :
    (parse_name (codes "work1") ≡ ok (codes "work1"))
    × (parse_name (codes "Work") ≡ err)
    × (parse_name (codes "work-domain") ≡ err)
    × (parse_name [] ≡ err)
unfolding parse_name
names_run = (refl, refl, refl, refl)
