-- ===== src/Cancel.antt =====
-- The registry of crates/pg-kinetic-proxy/src/cancel.rs: which backend a client's cancel request goes
-- to. This file has the calls that take no turns with others; a binding that a session and the
-- requests for it share is in the child System.
pub mod Keys
pub mod System
pub mod Invariant
pub mod Wakeup
mod Tests
use pg_kinetic.Prelude.{
  ℕ, ◌%◌, ◌^◌, Bool, true, false, ◌&&◌, Option, none, some, List, [], ◌∷◌, if◌then◌else◌, ◌==◌,
  is_some, Bytes,
}
use pg_kinetic.Prelude.Tables.{get, erase, put}
use pg_kinetic.Wire.Buffer.{i32_of}

-- An address is its text.
pub record CancelTarget : Type 0 where
  pub backend_addr : Bytes
  pub process_id : ℕ
  pub secret_key : ℕ

pub record CancelBinding : Type 0 where
  pub target : Option CancelTarget
  pub forwarding : Bool

-- The process id and the secret key, as the bit patterns of an i32.
abbrev pub Key : Type 0
Key = ℕ × ℕ

abbrev pub key_eq : Key → Key → Bool
key_eq (p, s) (q, t) = p == q && s == t

abbrev pub CancelRegistry : Type 0
CancelRegistry = List (Key × CancelBinding)

abbrev pub unbound : CancelBinding
unbound = record { target = none; forwarding = false }

-- `process_id` and `secret_key` of a digest; slicing a shorter one would panic.
unfoldable pub key_of_digest : Bytes → Option Key
key_of_digest (d0 ∷ d1 ∷ d2 ∷ d3 ∷ d4 ∷ d5 ∷ d6 ∷ d7 ∷ _) =
    some (i32_of d0 d1 d2 d3 % 2 ^ 31, i32_of d4 d5 d6 d7)
key_of_digest _ = none

-- What `issue_client_key` comes to: a key, the error of the nonce source, or a panic.
pub data Issued : Type 0 where
  issued : Key → CancelRegistry → Issued
  no_nonce panicked : Issued

module _ (digest : Bytes → Bytes) where
  -- The nonces that the source gives, in order, `none` where it fails. The outer `none` means that
  -- the loop goes on beyond the list.
  unfoldable pub issue_client_key : List (Option Bytes) → CancelRegistry → Option Issued
  unfolding key_of_digest
  issue_client_key [] entries = none
  issue_client_key (none ∷ nonces) entries = some no_nonce
  issue_client_key (some nonce ∷ nonces) entries =
      let again = issue_client_key nonces entries in
      elim (key_of_digest (digest nonce)) [
        | none ↦ some panicked
        | some key ↦
            if key.0 == 0
            then again
            else if is_some (get key_eq key entries)
            then again
            else some (issued key (put key_eq key unbound entries))
      ]

abbrev pub bound_to : Key → CancelTarget → CancelRegistry → Option CancelBinding → CancelRegistry
bound_to key target entries none = entries
bound_to key target entries (some binding) =
    put key_eq key (record binding { target = some target }) entries

unfoldable pub bind : Key → CancelTarget → CancelRegistry → CancelRegistry
bind key target entries = bound_to key target entries (get key_eq key entries)

abbrev pub target_of : Option CancelBinding → Option CancelTarget
target_of none = none
target_of (some binding) = binding.target

unfoldable pub lookup : Key → CancelRegistry → Option CancelTarget
lookup key entries = target_of (get key_eq key entries)

unfoldable pub remove_session : Key → CancelRegistry → CancelRegistry
remove_session key entries = erase key_eq key entries
