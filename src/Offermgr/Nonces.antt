-- ===== src/Offermgr/Nonces.antt =====
-- The nonces that offermgr/offermgr_impl.go gives out, and what it keeps across a restart.
use fcr.Mdlstore.{path_key, Store, has, get, put}
use fcr.Offermgr.{nonce_path, get_nonce, load_nonce, save_nonce}
use fcr.Base.{
  ℕ, suc, ◌+◌, ◌<◌, ◌^◌, ◌≡◌, arith, ◌%◌, ◌∙◌, ◌-◌, refl, String, Bool, ok, [], ◌∷◌, List, sym,
  ok-injective,
}
use mathlib.Core.Path.{subst}
use fcr.Mdlstore.Frame.{put_under-key, put_under-writes}

-- After the last of the 64-bit numbers GetNonce gives zero.
nonce_wraps : (get_nonce (2 ^ 64 - 1)).1 ≡ 0
unfolding get_nonce
nonce_wraps = refl

-- A manager that starts on the store that another one has left goes on from its nonce, if that was
-- written and the decoder reads back what the encoder writes.
nonce_kept :
    (sep : String → Bool) (encode : ℕ → String) (decode : String → ℕ) (nonce : ℕ) (s : Store)
    {s' : Store}
    → decode (encode nonce) ≡ nonce
    → put sep (encode nonce) nonce_path s ≡ ok s'
    → load_nonce sep decode (save_nonce sep encode nonce s) ≡ ok nonce
unfolding load_nonce save_nonce has get put
nonce_kept sep encode decode nonce s {s'} r e =
    let k = put_under-key sep (encode nonce) [] nonce_path s e in
    let w = put_under-writes sep (encode nonce) [] nonce_path s e in
    rw (save_nonce, e, load_nonce, k, w, r)

-- Calls of GetNonce, and restarts whose shutdown writes the nonce, from a manager at `start`: the state, the
-- store, and the nonces given so far, the newest one first.
pub data History (sep : String → Bool) (encode : ℕ → String) (decode : String → ℕ) (start : ℕ)
    : ℕ → Store → List ℕ → Type 0 where
  begins : (s : Store) → History sep encode decode start start s []
  gives :
      {n : ℕ} {s : Store} {given : List ℕ}
      → History sep encode decode start n s given
      → History sep encode decode start (get_nonce n).0 s ((get_nonce n).1 ∷ given)
  restarts :
      {n m : ℕ} {s s' : Store} {given : List ℕ}
      → History sep encode decode start n s given
      → decode (encode n) ≡ n
      → put sep (encode n) nonce_path s ≡ ok s'
      → load_nonce sep decode (save_nonce sep encode n s) ≡ ok m
      → History sep encode decode start m (save_nonce sep encode n s) given

abbrev pub count : List ℕ → ℕ
count [] = 0
count (n ∷ ns) = suc (count ns)

abbrev pub IsAbove : ℕ → List ℕ → Type 0
IsAbove n [] = Unit {0}
IsAbove n (m ∷ ms) = (m < n) × IsAbove n ms

-- Each nonce is larger than those given before it.
abbrev pub IsRising : List ℕ → Type 0
IsRising [] = Unit {0}
IsRising (n ∷ earlier) = IsAbove n earlier × IsRising earlier

IsAbove-next : (n : ℕ) (given : List ℕ) → IsAbove (suc n) given → IsAbove (suc (suc n)) given
IsAbove-next n [] h = tt
IsAbove-next n (m ∷ ms) (lt, h) = (omega (arith, lt), IsAbove-next n ms h)

-- The nonces after one more, from the state and the nonce that GetNonce leaves and gives.
abbrev Risen : ℕ → List ℕ → ℕ × ℕ → Type 0
Risen start given r =
    IsRising (r.1 ∷ given) × IsAbove (suc r.0) (r.1 ∷ given) × (r.0 ≡ start + count (r.1 ∷ given))

gives_next : (n : ℕ) → n + 1 < 2 ^ 64 → get_nonce n ≡ (suc n, suc n)
unfolding get_nonce
gives_next n h = let next : (n + 1) % 2 ^ 64 ≡ suc n = omega (arith, h) in rw next refl

rises :
    (sep : String → Bool) (encode : ℕ → String) (decode : String → ℕ) (start : ℕ) {n : ℕ}
    {s : Store} {given : List ℕ}
    → start + count given < 2 ^ 64
    → History sep encode decode start n s given
    → IsRising given × IsAbove (suc n) given × (n ≡ start + count given)
rises sep encode decode start h (begins s) = (tt, tt, omega arith)
rises sep encode decode start {given = x ∷ given} h (gives {n} t) =
    let (up, above, at) = rises sep encode decode start (omega (arith, h)) t in
    let new = gives_next n (omega (arith, h, at)) in
    subst (Risen start given) (sym new)
      ((above, up), (omega arith, IsAbove-next n given above), omega (arith, at))
rises sep encode decode start {given = given} h (restarts {n} {m} {s} t reads written loaded) =
    let (up, above, at) = rises sep encode decode start h t in
    let kept = nonce_kept sep encode decode n s reads written in
    let same : n ≡ m = ok-injective (sym kept ∙ loaded) in
    (up, subst (λ k. IsAbove (suc k) given) same above, sym same ∙ at)

-- In any sequence of calls of GetNonce and of restarts whose shutdown writes the nonce, each nonce that GetNonce
-- gives is larger than all that it gave before, as long as the counter does not reach 2^64. SetNonce is not
-- called in between, and the decoder reads back what the encoder wrote of the nonce at each shutdown.
pub nonces_increase :
    (sep : String → Bool) (encode : ℕ → String) (decode : String → ℕ) (start : ℕ) {n : ℕ}
    {s : Store} {given : List ℕ}
    → start + count given < 2 ^ 64
    → History sep encode decode start n s given
    → IsRising given
nonces_increase sep encode decode start h t = (rises sep encode decode start h t).0
