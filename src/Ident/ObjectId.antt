-- ===== src/Ident/ObjectId.antt =====
-- Backend object identifiers derived from a domain and an operation identity.
use boxwarden.Prelude.{
  Bytes, [], arith, length, length-append, ok, refl, true, ℕ, ◌&&◌, ◌++◌, ◌+◌, ◌∷◌, ◌≡◌, ◌≤◌,
}
use boxwarden.Ident.{
  all_lower_alnum, object_id_chars, object_id_for, parse_domain, strip_dashes, uuid_chars,
  valid_backend_object_id, valid_uuid,
}

object_id_chars-append :
    (a b : Bytes) → object_id_chars (a ++ b) ≡ (object_id_chars a && object_id_chars b)
unfolding object_id_chars
object_id_chars-append [] b = refl
object_id_chars-append (c ∷ cs) b = ground (arith, object_id_chars-append cs b)

all_lower_alnum-object_id_chars : (a : Bytes) → all_lower_alnum a ≡ true → object_id_chars a ≡ true
unfolding all_lower_alnum object_id_chars
all_lower_alnum-object_id_chars [] h = refl
all_lower_alnum-object_id_chars (c ∷ cs) h = ground (arith, all_lower_alnum-object_id_chars cs)

length-strip_dashes : (a : Bytes) → length (strip_dashes a) ≤ length a
unfolding strip_dashes
length-strip_dashes [] = omega arith
length-strip_dashes (c ∷ cs) = ground (arith, length-strip_dashes cs)

strip_dashes-object_id_chars :
    (i : ℕ) (a : Bytes) → uuid_chars i a ≡ true → object_id_chars (strip_dashes a) ≡ true
unfolding strip_dashes uuid_chars object_id_chars
strip_dashes-object_id_chars i [] h = refl
strip_dashes-object_id_chars i (c ∷ cs) h = ground (arith, strip_dashes-object_id_chars (i + 1) cs)

-- At the dash positions both texts have a dash, and elsewhere neither has.
strip_dashes-injective :
    (i : ℕ) (a b : Bytes)
    → uuid_chars i a ≡ true
    → uuid_chars i b ≡ true
    → length a ≡ length b
    → strip_dashes a ≡ strip_dashes b
    → a ≡ b
unfolding strip_dashes uuid_chars
strip_dashes-injective i [] [] h k l e = refl
strip_dashes-injective i [] (_ ∷ _) h k l e = absurd (omega arith)
strip_dashes-injective i (_ ∷ _) [] h k l e = absurd (omega arith)
strip_dashes-injective i (c ∷ cs) (d ∷ ds) h k l e =
    ground (arith, strip_dashes-injective (i + 1) cs ds)

parse_domain-facts :
    (d : Bytes)
    → parse_domain d ≡ ok d
    → (length d ≤ 63) × (object_id_chars d ≡ true) × (all_lower_alnum d ≡ true)
unfolding parse_domain object_id_chars
parse_domain-facts [] h = ground arith
parse_domain-facts (c ∷ cs) h = ground (arith, all_lower_alnum-object_id_chars cs)

-- The object identity derived from a parsed domain and a valid UUID is always a valid backend
-- object identity: at most 127 bytes, an alphanumeric first byte, and only alphanumerics and
-- dashes behind it.
pub object_id_for-valid :
    (d id : Bytes)
    → parse_domain d ≡ ok d
    → valid_uuid id ≡ true
    → valid_backend_object_id (object_id_for d id) ≡ true
unfolding object_id_for valid_uuid valid_backend_object_id
object_id_for-valid d id hd hid = ground (
  arith,
  parse_domain-facts d hd,
  object_id_chars-append d (b'-' ∷ strip_dashes id),
  strip_dashes-object_id_chars 0 id,
  length-strip_dashes id,
  length-append {0} d (b'-' ∷ strip_dashes id),
)

-- The first dash ends the domain, since a domain has none.
split_at_dash :
    (a b s t : Bytes)
    → all_lower_alnum a ≡ true
    → all_lower_alnum b ≡ true
    → a ++ (b'-' ∷ s) ≡ b ++ (b'-' ∷ t)
    → (a ≡ b) × (s ≡ t)
unfolding all_lower_alnum
split_at_dash [] [] s t h k e = ground arith
split_at_dash [] (d ∷ ds) s t h k e = ground arith
split_at_dash (c ∷ cs) [] s t h k e = ground arith
split_at_dash (c ∷ cs) (d ∷ ds) s t h k e = ground (arith, split_at_dash cs ds s t)

-- Two identities derived from parsed domains and valid UUIDs are equal only for the same domain
-- and the same UUID.
pub object_id_for-injective :
    (d e id jd : Bytes)
    → parse_domain d ≡ ok d
    → parse_domain e ≡ ok e
    → valid_uuid id ≡ true
    → valid_uuid jd ≡ true
    → object_id_for d id ≡ object_id_for e jd
    → (d ≡ e) × (id ≡ jd)
unfolding object_id_for valid_uuid
object_id_for-injective d e id jd hd he hi hj eq = ground (
  arith,
  parse_domain-facts d hd,
  parse_domain-facts e he,
  split_at_dash d e (strip_dashes id) (strip_dashes jd),
  strip_dashes-injective 0 id jd,
)
