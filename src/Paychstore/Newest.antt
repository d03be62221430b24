-- ===== src/Paychstore/Newest.antt =====
-- That paychstore/paychstore_impl.go keeps the newest state of a channel, in whatever order its queue
-- runs the writes.
use mathlib.Core.Path.{subst}
use mathlib.Core.Option.{some-injective}
use fcr.Mdlstore.{path_key, Store, has, get, get_ds_key}
use fcr.Paychstate.{State}
use fcr.Base.{
  ◌>>=◌, String, Bool, ℕ, Result, List, [], ok, ◌∷◌, Option, ◌≡◌, ◌<◌, ◌^◌, ◌-◌, ◌≤◌, some, ◌⊎◌,
  true, >>=-eq-ok, Bool-cases, inr, arith, inl, ◌∙◌, ap, ok-injective, sym, text_key, false,
  Option-cases, none,
}
use fcr.Paychstore.{peer_of, is_newer, upsert, has_newer, path_of_state, read}
use fcr.Mdlstore.Triples.{triples, get-triples, triples-put, has-triples, same_triple}
use fcr.Policies.History.{AllOf}
use fcr.Base.Map.{lookup}

module _ (sep : String → Bool) (id_text : ℕ → String) (outbound : Bool)
    (encode : State → Result String) (decode : String → Result State) where
  -- The queue, every write of which succeeds at some attempt.
  unfoldable pub upserts : List State → Store → Result Store
  upserts [] s = ok s
  upserts (x ∷ xs) s = do s' ← upsert sep id_text outbound encode decode x s; upserts xs s'

  -- What there is of a channel.
  abbrev pub state_at : Store → String → String → String → Option (Result State)
  state_at s cur peer ch = triples sep decode s cur peer ch

  -- States of one channel that the codec reads back, with nonces that are not about to overflow.
  abbrev pub AreOf : String → String → String → List State → Type 0
  AreOf cur peer ch [] = Unit {0}
  AreOf cur peer ch (x ∷ xs) =
      ((id_text x.currency_id ≡ cur)
        × (peer_of sep id_text outbound x ≡ peer)
        × (x.ch_addr ≡ ch)
        × ((encode x >>= decode) ≡ ok x)
        × (x.state_nonce < 2 ^ 64 - 100))
      × AreOf cur peer ch xs

  -- None of the states is newer.
  abbrev pub AtMost : ℕ → List State → Type 0
  AtMost n [] = Unit {0}
  AtMost n (x ∷ xs) = (x.state_nonce ≤ n) × AtMost n xs

  state_at_cong :
      (s : Store) (a b c d e f : String)
      → a ≡ d
      → b ≡ e
      → c ≡ f
      → state_at s a b c ≡ state_at s d e f
  state_at_cong s a b c d e f p q r = rw (p, q, r)

  -- A newer state that an attempt finds.
  has_newer-true :
      (x : State) (s : Store)
      → has_newer sep id_text outbound decode x s ≡ ok true
      → (y : State) × (state_at s (id_text x.currency_id) (peer_of sep id_text outbound x) x.ch_addr
          ≡ some (ok y))
        × (is_newer y.state_nonce x.state_nonce ≡ true)
  unfolding has_newer path_of_state
  has_newer-true x s e =
      let path = id_text x.currency_id ∷ peer_of sep id_text outbound x ∷ x.ch_addr ∷ [] in
      let (b, h, f) = >>=-eq-ok (has sep path s) _ e in
      elim (Bool-cases b) [
        | inr t ↦ let g = rw t at f in absurd (ground arith)
        | inl t ↦
            let (v, g, f₁) = >>=-eq-ok (get sep path s) _ (rw t at f) in
            let (y, d, f₂) = >>=-eq-ok (decode v) _ f₁ in
            let there =
              get-triples sep decode (id_text x.currency_id) (peer_of sep id_text outbound x)
                x.ch_addr s g in
            (y, there ∙ ap some d, ok-injective f₂)
      ]

  has_newer-false :
      (x : State) (s : Store) (y : State)
      → has_newer sep id_text outbound decode x s ≡ ok false
      → state_at s (id_text x.currency_id) (peer_of sep id_text outbound x) x.ch_addr ≡ some (ok y)
      → is_newer y.state_nonce x.state_nonce ≡ false
  unfolding has_newer path_of_state
  has_newer-false x s y e there =
      let cur = id_text x.currency_id in
      let peer = peer_of sep id_text outbound x in
      let (b, h, f) = >>=-eq-ok (has sep (cur ∷ peer ∷ x.ch_addr ∷ []) s) _ e in
      let seen = has-triples sep decode cur peer x.ch_addr s h in
      let exists : true ≡ b = rw there at seen in
      let (v, g, f₁) = >>=-eq-ok (get sep (cur ∷ peer ∷ x.ch_addr ∷ []) s) _ (rw (← exists) at f) in
      let (y', d, f₂) = >>=-eq-ok (decode v) _ f₁ in
      let found = get-triples sep decode cur peer x.ch_addr s g in
      let same : ok y ≡ ok y' = some-injective _ _ (sym there ∙ found ∙ ap some d) in
      subst (λ (u : State). is_newer u.state_nonce x.state_nonce ≡ false) (sym (ok-injective same))
        (ok-injective f₂)

  upsert-view :
      (x : State) (s : Store) {s' : Store}
      → ((encode x >>= decode) ≡ ok x)
      → upsert sep id_text outbound encode decode x s ≡ ok s'
      → ((state_at s' (id_text x.currency_id) (peer_of sep id_text outbound x) x.ch_addr
            ≡ some (ok x))
          × (has_newer sep id_text outbound decode x s ≡ ok false))
        ⊎ ((y : State) × (state_at s
                (id_text x.currency_id)
                (peer_of sep id_text outbound x)
                x.ch_addr
              ≡ some (ok y))
            × (state_at s' (id_text x.currency_id) (peer_of sep id_text outbound x) x.ch_addr
                ≡ some (ok y))
            × (is_newer y.state_nonce x.state_nonce ≡ true))
  unfolding upsert path_of_state
  upsert-view x s {s'} r e =
      let cur = id_text x.currency_id in
      let peer = peer_of sep id_text outbound x in
      let (v, f, e₁) = >>=-eq-ok (encode x) _ e in
      let (b, g, e₂) = >>=-eq-ok (has_newer sep id_text outbound decode x s) _ e₁ in
      elim (Bool-cases b) [
        | inl t ↦
            let (y, there, newer) = has_newer-true x s (g ∙ ap ok t) in
            let same : s ≡ s' = ok-injective (rw t at e₂) in
            inr (
              y,
              there,
              subst (λ (u : Store). state_at u cur peer x.ch_addr ≡ some (ok y)) same there,
              newer,
            )
        | inr t ↦
            let (b', g', e₃) =
              >>=-eq-ok (has_newer sep id_text outbound decode x s) _ (rw t at e₂) in
            let again : b' ≡ b = ok-injective (sym g' ∙ g) in
            let written = rw (again, t) at e₃ in
            let new = triples-put sep decode v cur peer x.ch_addr cur peer x.ch_addr s written in
            let read : decode v ≡ ok x = rw f at r in
            let own : same_triple cur peer x.ch_addr cur peer x.ch_addr ≡ true = ground (
              arith,
              text_key.beq_iff cur cur,
              text_key.beq_iff peer peer,
              text_key.beq_iff x.ch_addr x.ch_addr,
            ) in
            inl (rw own at new ∙ ap some read, g ∙ ap ok t)
      ]

  -- The newer of two nonces has the higher number, away from the ends of uint64.
  newer-lt : (n m : ℕ) → is_newer n m ≡ true → m < n
  unfolding is_newer
  newer-lt n m e = ground arith

  not_newer-le : (n m : ℕ) → n < 2 ^ 64 - 100 → is_newer n m ≡ false → n ≤ m
  unfolding is_newer
  not_newer-le n m small e = ground arith

  read-state_at :
      (cur peer ch : String) (s : Store) (z : State)
      → get_ds_key sep (cur ∷ peer ∷ ch ∷ []) ≡ ok (cur ∷ peer ∷ ch ∷ [])
      → state_at s cur peer ch ≡ some (ok z)
      → read sep decode cur peer ch s ≡ ok z
  unfolding read has get
  read-state_at cur peer ch s z key there = elim (Option-cases (lookup (cur ∷ peer ∷ ch ∷ []) s)) [
    | inl q ↦ let gone = rw q at there in absurd (ground arith)
    | inr (n, q) ↦
        let found : decode n.node_data ≡ ok z = some-injective _ _ (rw q at there) in
        rw (read, key, q) found
  ]

  -- What a further write leaves, where there was the state `y`.
  newest :
      (P : State → Type 0) (cur peer ch : String) (xs : List State) (s : Store) {s' : Store}
      (y : State)
      → P y
      → AllOf P xs
      → AreOf cur peer ch xs
      → state_at s cur peer ch ≡ some (ok y)
      → y.state_nonce < 2 ^ 64 - 100
      → upserts xs s ≡ ok s'
      → (z : State) × (state_at s' cur peer ch ≡ some (ok z))
        × P z
        × (y.state_nonce ≤ z.state_nonce)
        × AtMost z.state_nonce xs
  unfolding upserts
  newest P cur peer ch [] s {s'} y py ps fine there small e = (
    y,
    subst (λ (u : Store). state_at u cur peer ch ≡ some (ok y)) (ok-injective e) there,
    py,
    ground arith,
    tt,
  )
  newest P cur peer ch (x ∷ xs) s {s'} y py (px, ps) ((c, p, k, r, lt), fine) there small e =
      let (t, f, g) = >>=-eq-ok (upsert sep id_text outbound encode decode x s) _ e in
      let at_x : state_at s (id_text x.currency_id) (peer_of sep id_text outbound x) x.ch_addr
          ≡ some (ok y) =
        state_at_cong s _ _ _ cur peer ch c p k ∙ there in
      elim (upsert-view x s r f) [
        | inl (new, old) ↦
            let le =
              not_newer-le y.state_nonce x.state_nonce small (has_newer-false x s y old at_x) in
            let (z, stored, pz, up, rest) =
              newest P cur peer ch xs t x px ps fine
                (sym (state_at_cong t _ _ _ cur peer ch c p k) ∙ new) lt g in
            (z, stored, pz, omega (arith, le, up), (up, rest))
        | inr (y', before, after, newer) ↦
            let same : y' ≡ y = ok-injective (some-injective _ _ (sym before ∙ at_x)) in
            let above = newer-lt y'.state_nonce x.state_nonce newer in
            let (z, stored, pz, up, rest) =
              newest P cur peer ch xs t y py ps fine
                (sym (state_at_cong t _ _ _ cur peer ch c p k)
                  ∙ after
                  ∙ ap (λ (u : State). some (ok u)) same)
                small g in
            let above' : x.state_nonce < y.state_nonce = rw same at above in
            (z, stored, pz, up, (omega (arith, above', up), rest))
      ]

  -- After any number of writes of states of one channel, in any order, Read returns a state that none of
  -- them is newer than, with every property that they all have, such as being one of them. It is stated
  -- for a channel that had no state before, an id without a separator, nonces more than a hundred below
  -- 2^64, states that the decoder reads back, and writes that each succeed at some attempt.
  pub newest_state_kept :
      (P : State → Type 0) (cur peer ch : String) (x : State) (xs : List State) (s : Store)
      {s' : Store}
      → AllOf P (x ∷ xs)
      → AreOf cur peer ch (x ∷ xs)
      → state_at s cur peer ch ≡ none
      → get_ds_key sep (cur ∷ peer ∷ ch ∷ []) ≡ ok (cur ∷ peer ∷ ch ∷ [])
      → upserts (x ∷ xs) s ≡ ok s'
      → (z : State) × (read sep decode cur peer ch s' ≡ ok z) × P z × AtMost z.state_nonce (x ∷ xs)
  unfolding upserts
  newest_state_kept P cur peer ch x xs s {s'} (px, ps) ((c, p, k, r, lt), fine) nothing key e =
      let (t, f, g) = >>=-eq-ok (upsert sep id_text outbound encode decode x s) _ e in
      elim (upsert-view x s r f) [
        | inl (new, old) ↦
            let (z, stored, pz, up, rest) =
              newest P cur peer ch xs t x px ps fine
                (sym (state_at_cong t _ _ _ cur peer ch c p k) ∙ new) lt g in
            (z, read-state_at cur peer ch s' z key stored, pz, (up, rest))
        | inr (y, before, after, newer) ↦
            let there : none ≡ some (ok y) =
              sym nothing ∙ sym (state_at_cong s _ _ _ cur peer ch c p k) ∙ before in
            absurd (ground arith)
      ]
