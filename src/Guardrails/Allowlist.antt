-- ===== src/Guardrails/Allowlist.antt =====
-- The list of fingerprints that crates/pg-kinetic-proxy/src/guardrails.rs loads stays small.
use pg_kinetic.Guardrails.{
  max_allowlist_entries, contains_key, any_control, is_entry, add_entry, refuses, lines_from,
  load_lines, load_allowlist, max_allowlist_bytes,
}
use pg_kinetic.Prelude.{
  ℕ, ◌≤◌, ◌<◌, ◌≡◌, inl, inr, false, some, List, [], ◌∷◌, arith, All, ltb, length, Bool-cases,
}
use pg_kinetic.Sql.Chars.{Text, is_empty, trim}
use pg_kinetic.Sql.Fingerprint.{max_fingerprint_bytes, len}

-- A fingerprint of the list: a line of 256 bytes at most, with no control character.
abbrev pub IsFingerprint : Text → Type 0
IsFingerprint line =
    (is_empty line ≡ false) × (len line ≤ max_fingerprint_bytes) × (any_control line ≡ false)

abbrev pub IsAllowlist : List Text → Type 0
IsAllowlist entries = (length entries ≤ max_allowlist_entries) × All IsFingerprint entries

add_entry-IsAllowlist :
    (line : Text) (entries : List Text)
    → length entries < max_allowlist_entries
    → IsFingerprint line
    → All IsFingerprint entries
    → IsAllowlist (add_entry line entries)
add_entry-IsAllowlist line entries b h hs = elim (Bool-cases (contains_key line entries)) [
  | inl e ↦ rw e (omega arith, hs)
  | inr e ↦ rw e (omega arith, (h, hs))
]

load_lines-IsAllowlist :
    (entries lines loaded : List Text)
    → IsAllowlist entries
    → load_lines entries lines ≡ some loaded
    → IsAllowlist loaded
unfolding load_lines
load_lines-IsAllowlist entries [] loaded b h = let e : entries ≡ loaded = ground arith in rw (← e) b
load_lines-IsAllowlist entries (l ∷ ls) loaded b h = elim (Bool-cases (is_entry (trim l))) [
  | inr e ↦ load_lines-IsAllowlist entries ls loaded b (ground arith)
  | inl e ↦ elim (Bool-cases (refuses (trim l) entries)) [
    | inl refused ↦ ground arith
    | inr kept ↦
        load_lines-IsAllowlist (add_entry (trim l) entries) ls loaded
          (add_entry-IsAllowlist (trim l) entries (ground arith)
            (ground arith, ground arith, ground arith) b.1)
          (ground arith)
  ]
]

-- A list that is loaded has at most 256 fingerprints, each of 256 bytes at most and without control
-- characters.
pub load_allowlist-IsAllowlist :
    (size : ℕ) (content : Text) (loaded : List Text)
    → load_allowlist size content ≡ some loaded
    → IsAllowlist loaded
unfolding load_allowlist
load_allowlist-IsAllowlist size content loaded h =
    elim (Bool-cases (ltb max_allowlist_bytes size)) [
      | inl e ↦ ground arith
      | inr e ↦
          load_lines-IsAllowlist [] (lines_from [] content) loaded (omega arith, tt) (ground arith)
    ]
