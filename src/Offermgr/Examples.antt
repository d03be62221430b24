-- ===== src/Offermgr/Examples.antt =====
-- The theorems on offermgr/ at work.
use fcr.Mdlstore.{path_key, Store, put_under, put_leaf, get_ds_key, add_child, put, has, get}
use fcr.Base.{
  if◌then◌else◌, String, Bool, false, ℕ, nat_eq, ◌==◌, [], ◌∷◌, true, ◌≡◌, ok, refl, arith,
  text_key,
}
use fcr.Offermgr.{nonce_path, get_nonce, load_nonce, save_nonce}
use fcr.Offermgr.Nonces.{IsRising, History, begins, gives, restarts, nonces_increase}

abbrev no_separator : String → Bool
no_separator x = false

abbrev write_nonce : ℕ → String
write_nonce n = if nat_eq n 5 then "5" else ""

abbrev read_nonce : String → ℕ
read_nonce v = if v == "5" then 5 else 0

abbrev empty_store : Store
empty_store = ([], record { node_data = ""; children = [] }) ∷ []

abbrev saved : Store
saved =
    ([], record { node_data = ""; children = ("0", true) ∷ [] })
    ∷ ("0" ∷ [], record { node_data = "5"; children = [] })
    ∷ []

saves : put no_separator "5" nonce_path empty_store ≡ ok saved
unfolding put put_under put_leaf get_ds_key add_child
saves = refl

abbrev reopened : Store
reopened = save_nonce no_separator write_nonce 5 empty_store

loads : load_nonce no_separator read_nonce reopened ≡ ok 5
unfolding load_nonce save_nonce has get put put_under put_leaf get_ds_key add_child
loads = refl

-- A nonce, a restart, and another nonce.
history : History no_separator write_nonce read_nonce 4 6 reopened (6 ∷ 5 ∷ [])
unfolding get_nonce
history = gives (restarts (gives (begins empty_store)) refl saves loads)

nonces_increase_example : IsRising (6 ∷ 5 ∷ [])
nonces_increase_example =
    nonces_increase no_separator write_nonce read_nonce 4 (omega arith) history
