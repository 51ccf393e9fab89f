-- ===== src/Cancel/Keys.antt =====
-- What a registry answers after each call (crates/pg-kinetic-proxy/src/cancel.rs).
use pg_kinetic.Prelude.{
  ◌^◌, ◌<◌, true, ◌&&◌, Option, none, some, List, [], ◌∷◌, if◌then◌else◌, ◌==◌, is_some, Bytes, ◌≡◌,
  ◌↔◌, arith, Option-cases, inl, inr,
}
use pg_kinetic.Prelude.Tables.{get, put, get-erase, get-put}
use pg_kinetic.Cancel.{
  CancelTarget, Key, key_eq, CancelRegistry, unbound, key_of_digest, Issued, issued,
  issue_client_key, bind, lookup, remove_session,
}

pub key_eq_iff : (a b : Key) → (key_eq a b ≡ true) ↔ (a ≡ b)
key_eq_iff (p, s) (q, t) = ground arith

-- A key that is in the registry answers with the target that was bound last; a key that is not
-- stays unknown, and the answers for the other keys stay what they were.
pub lookup-bind :
    (key other : Key) (target : CancelTarget) (entries : CancelRegistry)
    → lookup other (bind key target entries) ≡ (
        if key_eq key other && is_some (get key_eq key entries)
        then some target
        else lookup other entries)
unfolding lookup bind
lookup-bind key other target entries = elim (Option-cases (get key_eq key entries)) [
  | inl missing ↦ ground (arith, missing)
  | inr (b, found) ↦ ground (
    arith,
    found,
    get-put key_eq key_eq_iff key other (record b { target = some target }) entries,
  )
]

-- After a session is removed its key answers nothing, and the other keys answer as before.
pub lookup-remove_session :
    (key other : Key) (entries : CancelRegistry)
    → lookup other (remove_session key entries)
      ≡ (if key_eq key other then none else lookup other entries)
unfolding lookup remove_session
lookup-remove_session key other entries =
    ground (arith, get-erase key_eq key_eq_iff key other entries)

key_of_digest-bound : (bytes : Bytes) (key : Key) → key_of_digest bytes ≡ some key → key.0 < 2 ^ 31
unfolding key_of_digest
key_of_digest-bound (d0 ∷ d1 ∷ d2 ∷ d3 ∷ d4 ∷ d5 ∷ d6 ∷ d7 ∷ _) key h = ground (arith, h)
key_of_digest-bound [] key h = cc
key_of_digest-bound (_ ∷ []) key h = cc
key_of_digest-bound (_ ∷ _ ∷ []) key h = cc
key_of_digest-bound (_ ∷ _ ∷ _ ∷ []) key h = cc
key_of_digest-bound (_ ∷ _ ∷ _ ∷ _ ∷ []) key h = cc
key_of_digest-bound (_ ∷ _ ∷ _ ∷ _ ∷ _ ∷ []) key h = cc
key_of_digest-bound (_ ∷ _ ∷ _ ∷ _ ∷ _ ∷ _ ∷ []) key h = cc
key_of_digest-bound (_ ∷ _ ∷ _ ∷ _ ∷ _ ∷ _ ∷ _ ∷ []) key h = cc

-- A key that no session has, whose process id is a positive i32, and that is in the registry now.
abbrev pub IsFresh : Key → CancelRegistry → CancelRegistry → Type 0
IsFresh key before after =
    (0 < key.0)
    × ((key.0 < 2 ^ 31)
        × ((get key_eq key before ≡ none) × (after ≡ put key_eq key unbound before)))

issue_round :
    (key issued_key : Key) (before after : CancelRegistry) (again : Option Issued)
    → key.0 < 2 ^ 31
    → (again ≡ some (issued issued_key after) → IsFresh issued_key before after)
    → (if key.0 == 0
        then again
        else if is_some (get key_eq key before)
        then again
        else some (issued key (put key_eq key unbound before)))
      ≡ some (issued issued_key after)
    → IsFresh issued_key before after
issue_round key issued_key before after again bound rest h =
    elim (Option-cases (get key_eq key before)) [
      | inl e ↦ ground (arith, e, h, rest)
      | inr (b, e) ↦ ground (arith, e, h, rest)
    ]

-- A key that is issued is one that no session has, its process id is positive and fits an i32, and
-- the registry gains its unbound entry.
pub issue_client_key-IsFresh :
    (digest : Bytes → Bytes) (nonces : List (Option Bytes)) (key : Key)
    (before after : CancelRegistry)
    → issue_client_key digest nonces before ≡ some (issued key after)
    → IsFresh key before after
unfolding issue_client_key
issue_client_key-IsFresh digest [] key before after h = cc
issue_client_key-IsFresh digest (none ∷ nonces) key before after h = cc
issue_client_key-IsFresh digest (some nonce ∷ nonces) key before after h =
    elim (Option-cases (key_of_digest (digest nonce))) [
      | inl short ↦ ground (arith, short, h)
      | inr (k, found) ↦
          issue_round k key before after (issue_client_key digest nonces before)
            (key_of_digest-bound _ k found)
            (issue_client_key-IsFresh digest nonces key before after) (ground (arith, found, h))
    ]
