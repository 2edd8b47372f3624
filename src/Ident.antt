-- ===== src/Ident.antt =====
-- Identifiers of domains, sessions, backend objects and mounts: internal/domain/id.go,
-- internal/session/name.go, internal/session/id.go, the validators of
-- internal/session/record.go, internal/session/rebuild_journal.go and
-- internal/workspacex/record.go, and objectIDFor of internal/session/create.go.
-- A loop over the runes of a Go string is one over its bytes here: every rune that these loops
-- accept is one byte, and they stop at the first byte of any other.
pub mod Hex
pub mod ObjectId
pub mod Names
use boxwarden.Prelude.{
  Bool, Bytes, Outcome, [], codes, eqb, err, false, if◌then◌else◌, leb, length, ltb, not, ok, true,
  ℕ, ◌&&◌, ◌++◌, ◌+◌, ◌==◌, ◌||◌, ◌∷◌,
}

abbrev pub max_id_length : ℕ
max_id_length = 63

abbrev pub lower : ℕ → Bool
lower c = leb b'a' c && leb c b'z'

abbrev pub digit : ℕ → Bool
digit c = leb b'0' c && leb c b'9'

unfoldable pub all_lower_alnum : Bytes → Bool
all_lower_alnum [] = true
all_lower_alnum (c ∷ cs) = not (not (lower c) && not (digit c)) && all_lower_alnum cs

-- `raw[0]` is a lower-case letter, and the rest are letters and digits.
unfoldable pub head_then_alnum : Bytes → Bool
unfolding all_lower_alnum
head_then_alnum [] = false
head_then_alnum (c ∷ cs) = lower c && all_lower_alnum cs

-- Parse of internal/domain.
unfoldable pub parse_domain : Bytes → Outcome Bytes
unfolding head_then_alnum
parse_domain raw =
    if length raw == 0 || ltb max_id_length (length raw)
    then err
    else if head_then_alnum raw
    then ok raw
    else err

-- ParseName of internal/session.
unfoldable pub parse_name : Bytes → Outcome Bytes
unfolding head_then_alnum
parse_name raw =
    if length raw == 0 || ltb max_id_length (length raw)
    then err
    else if head_then_alnum raw
    then ok raw
    else err

unfoldable pub valid_session_name : Bytes → Bool
unfolding head_then_alnum
valid_session_name name =
    not (length name == 0) && leb (length name) max_id_length && head_then_alnum name

abbrev pub lower_hex : ℕ → Bool
lower_hex c = digit c || (leb b'a' c && leb c b'f')

abbrev pub dash_index : ℕ → Bool
dash_index i = i == 8 || i == 13 || i == 18 || i == 23

unfoldable pub uuid_chars : ℕ → Bytes → Bool
uuid_chars i [] = true
uuid_chars i (c ∷ cs) = (if dash_index i then c == b'-' else lower_hex c) && uuid_chars (i + 1) cs

unfoldable pub valid_uuid : Bytes → Bool
unfolding uuid_chars
valid_uuid raw = length raw == 36 && uuid_chars 0 raw

abbrev pub is_alpha_numeric : ℕ → Bool
is_alpha_numeric c = lower c || (leb b'A' c && leb c b'Z') || digit c

unfoldable pub object_id_chars : Bytes → Bool
object_id_chars [] = true
object_id_chars (c ∷ cs) = (is_alpha_numeric c || c == b'-') && object_id_chars cs

unfoldable pub valid_backend_object_id : Bytes → Bool
unfolding object_id_chars
valid_backend_object_id [] = false
valid_backend_object_id (c ∷ cs) =
    leb (length (c ∷ cs)) 127 && is_alpha_numeric c && object_id_chars cs

unfoldable pub all_lower_hex : Bytes → Bool
all_lower_hex [] = true
all_lower_hex (c ∷ cs) = lower_hex c && all_lower_hex cs

unfoldable pub lower_sha256 : Bytes → Bool
unfolding all_lower_hex
lower_sha256 raw = length raw == 64 && all_lower_hex raw

-- What is left of `s` behind a prefix: `s[len(prefix):]` after the test of `s[:len(prefix)]`.
unfoldable pub strip_prefix : Bytes → Bytes → Outcome Bytes
strip_prefix [] s = ok s
strip_prefix (p ∷ ps) [] = err
strip_prefix (p ∷ ps) (c ∷ cs) = if p == c then strip_prefix ps cs else err

abbrev pub mount_prefix : Bytes
mount_prefix = codes "/home/boxwarden/workspaces/"

unfoldable pub valid_mount_path : Bytes → Bool
unfolding strip_prefix valid_session_name
valid_mount_path mount =
    if leb (length mount) (length mount_prefix) || ltb 255 (length mount)
    then false
    else elim (strip_prefix mount_prefix mount) [ ok name ↦ valid_session_name name | err ↦ false ]

unfoldable pub valid_pending_kind : Bytes → Bool
unfolding eqb
valid_pending_kind kind =
    eqb kind (codes "create")
    || eqb kind (codes "format")
    || eqb kind (codes "import")
    || eqb kind (codes "attach")
    || eqb kind (codes "detach")
    || eqb kind (codes "export-snapshot")

-- `strings.ReplaceAll(id, "-", "")`
unfoldable pub strip_dashes : Bytes → Bytes
strip_dashes [] = []
strip_dashes (c ∷ cs) = if c == b'-' then strip_dashes cs else c ∷ strip_dashes cs

unfoldable pub object_id_for : Bytes → Bytes → Bytes
unfolding strip_dashes
object_id_for domain_id id = codes "boxwarden-" ++ (domain_id ++ (b'-' ∷ strip_dashes id))
