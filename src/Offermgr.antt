-- ===== src/Offermgr.antt =====
-- The nonces of offers: OfferManagerImpl of offermgr/offermgr_impl.go, whose state is the last nonce given
-- and the store it is kept in. `encode` and `decode` are binary.LittleEndian's PutUint64 and Uint64. Locks
-- that fail, and transactions that the datastore refuses, are not modelled.
mod Examples
pub mod Nonces
use fcr.Base.{
  ◌>>=◌, ◌>>◌, String, ℕ, Bool, Result, [], ◌∷◌, ok, if◌then◌else◌, List, panic, err, ◌+◌,
}
use fcr.Mdlstore.{Store, has, put, get}
use fcr.Paymgr.Types.{u64}

-- The path that the nonce is kept at.
abbrev pub nonce_path : List String
nonce_path = "0" ∷ []

-- The nonce that a manager starts with.
unfoldable pub load_nonce : (String → Bool) → (String → ℕ) → Store → Result ℕ
load_nonce sep decode s = do
  exists ← has sep nonce_path s
  let saved = do val ← get sep nonce_path s; ok (decode val)
  if exists then saved else ok 0

-- The store that a manager leaves at its shutdown; an error is only logged.
unfoldable pub save_nonce : (String → Bool) → (ℕ → String) → ℕ → Store → Store
save_nonce sep encode nonce s = elim (put sep (encode nonce) nonce_path s) [
  | panic ↦ s
  | err e ↦ s
  | ok s' ↦ s'
]

-- The new state, and the nonce that is given out.
unfoldable pub get_nonce : ℕ → ℕ × ℕ
get_nonce nonce = let next = u64 (nonce + 1) in (next, next)

abbrev set_nonce : ℕ → ℕ → ℕ
set_nonce new nonce = new
