-- ===== src/Ident/Names.antt =====
-- The three validators of names agree, and what a mount path and a name are.
use boxwarden.Prelude.{Bytes, arith, ok, refl, true, ◌↔◌, ◌≡◌}
use boxwarden.Ident.{parse_domain, parse_name, valid_session_name}

-- `parse_name` accepts exactly the names that the workspace package accepts.
pub parse_name_iff : (raw : Bytes) → (parse_name raw ≡ ok raw) ↔ (valid_session_name raw ≡ true)
unfolding parse_name valid_session_name
parse_name_iff raw = ground arith

-- A parsed name is the text that was parsed.
pub parse_name-eq : (raw : Bytes) {n : Bytes} → parse_name raw ≡ ok n → n ≡ raw
unfolding parse_name
parse_name-eq raw h = ground arith

pub parse_domain-eq : (raw : Bytes) {n : Bytes} → parse_domain raw ≡ ok n → n ≡ raw
unfolding parse_domain
parse_domain-eq raw h = ground arith

pub parse_domain-parse_name : (raw : Bytes) → parse_domain raw ≡ parse_name raw
unfolding parse_domain parse_name
parse_domain-parse_name raw = refl

-- A name that comes out of parsing parses to itself.
pub parse_name_self : (raw n : Bytes) → parse_name raw ≡ ok n → parse_name n ≡ ok n
parse_name_self raw n h = rw (parse_name-eq raw h) (rw (parse_name-eq raw h) at h)

pub parse_domain_self : (raw n : Bytes) → parse_domain raw ≡ ok n → parse_domain n ≡ ok n
parse_domain_self raw n h = rw (parse_domain-eq raw h) (rw (parse_domain-eq raw h) at h)
