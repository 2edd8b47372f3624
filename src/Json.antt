-- ===== src/Json.antt =====
-- JSON documents as encoding/json hands them to the decoders, and the walk over the members of
-- one object that they share: requireObjectStart, objectField and requireObjectEnd of
-- internal/session/record.go, and decodeObject of internal/workspacex/record.go. The syntax of
-- JSON is the library's; a text that it refuses is `other`, like an array, a fraction or a
-- negative number, none of which any field accepts.
use boxwarden.Prelude.{
  Bool, Bool-cases, Bytes, List, Outcome, [], arith, bind, bind-eq-ok, eqb, err, false,
  if◌then◌else◌, inl, inr, ltb, ok, subst, ℕ, ◌^◌, ◌||◌, ◌∷◌, ◌≡◌,
}

mutual
  pub data Json : Type 0 where
    null : Json
    bool : Bool → Json
    num : ℕ → Json
    str : Bytes → Json
    obj : Members → Json
    other : Json

  pub data Members : Type 0 where
    end : Members
    member : Bytes → Json → Members → Members

-- `Decode` into a string: null leaves the variable as it was.
abbrev pub decode_string : Json → Bytes → Outcome Bytes
decode_string (str s) old = ok s
decode_string null old = ok old
decode_string _ old = err

-- `Decode` into an int or an int64.
abbrev pub decode_int : Json → ℕ → Outcome ℕ
decode_int (num n) old = if ltb n (2 ^ 63) then ok n else err
decode_int null old = ok old
decode_int _ old = err

-- `Decode` into a uint64.
abbrev pub decode_uint : Json → ℕ → Outcome ℕ
decode_uint (num n) old = if ltb n (2 ^ 64) then ok n else err
decode_uint null old = ok old
decode_uint _ old = err

abbrev pub decode_bool : Json → Bool → Outcome Bool
decode_bool (bool b) old = ok b
decode_bool null old = ok old
decode_bool _ old = err

unfoldable pub contains : List Bytes → Bytes → Bool
contains [] k = false
contains (j ∷ js) k = eqb j k || contains js k

module _ {S : Type 0} (handle : Bytes → Json → S → Outcome S) where
  -- The loop `for decoder.More()`: a name that was seen is refused, and the handler refuses the
  -- names that it does not know.
  unfoldable pub decode_members : Members → List Bytes → S → Outcome S
  unfolding contains
  decode_members end seen s = ok s
  decode_members (member k v ms) seen s =
      if contains seen k then err else bind (handle k v s) (λ t. decode_members ms (k ∷ seen) t)

  unfoldable pub decode_object : Json → S → Outcome S
  unfolding decode_members
  decode_object (obj ms) s = decode_members ms [] s
  decode_object _ s = err

  -- What every handled member keeps holds at the end.
  module _ {ℓ} (P : S → Type ℓ)
      (keep : (k : Bytes) (v : Json) (s t : S) → P s → handle k v s ≡ ok t → P t) where
    decode_members-keeps :
        (ms : Members) (seen : List Bytes) (s t : S) → P s → decode_members ms seen s ≡ ok t → P t
    unfolding decode_members
    decode_members-keeps end seen s t p e = subst P (ground arith) p
    decode_members-keeps (member k v ms) seen s t p e = elim (Bool-cases (contains seen k)) [
      | inl old ↦ cc (rw old at e)
      | inr new ↦
          let (u, h, later) =
            bind-eq-ok (handle k v s) (λ u. decode_members ms (k ∷ seen) u) (rw new at e) in
          decode_members-keeps ms (k ∷ seen) u t (keep k v s u p h) later
    ]

    pub decode_object-keeps : (j : Json) (s t : S) → P s → decode_object j s ≡ ok t → P t
    unfolding decode_object
    decode_object-keeps (obj ms) s t p e = decode_members-keeps ms [] s t p e
    decode_object-keeps null s t p e = cc
    decode_object-keeps (bool b) s t p e = cc
    decode_object-keeps (num n) s t p e = cc
    decode_object-keeps (str x) s t p e = cc
    decode_object-keeps other s t p e = cc
