-- ===== src/Pservmgr/Loaded.antt =====
-- What the start of pservmgr/pservmgr_impl.go puts into the cache, against the store.
use mathlib.Core.Path.{subst}
use fcr.Pservmgr.Load.{
  load_servings, load_recipient, load_recipients, load_currencies, load, to_byte,
}
use fcr.Pservmgr.{CachedServing, PaychServingManager, inspect}
use fcr.Pservmgr.Agree.{delete_peer-keeps, inspect-peer_map}
use fcr.Base.Nested.{Nested, set_peer, set_channel, peer_map, peer_map-set_peer, lookup-set_channel}
use fcr.Base.Map.{Map, is_empty, insert, lookup, lookup-insert}
use fcr.Base.Int.{ℤ}
use fcr.Mdlstore.{Store, get_children, get, delete}
use fcr.Mdlstore.Triples.{triples, triples-delete_above, get-triples}
use fcr.Base.{
  String, Bool, ℕ, Result, ◌≡◌, some, ok, ◌∷◌, [], nat_eq_iff, text_key, Bool-cases, nat_eq, ◌&&◌,
  ◌==◌, inr, inl, arith, none, ok-injective, >>=-eq-ok, nat_key, true, ◌∙◌, sym, ap, Option,
}

module _ (sep : String → Bool) (id_text : ℕ → String) (atoi : String → Result ℤ)
    (decode : String → Result CachedServing) where
  -- Each price of the cache is the one in the store.
  abbrev IsStored : Nested CachedServing → Store → Type 0
  IsStored cache s =
      (c : ℕ) (p k : String) (v : CachedServing)
      → lookup k (peer_map c p cache) ≡ some v
      → triples sep decode s (id_text c) p k ≡ some (ok v)

  set_channel-IsStored :
      (cur : ℕ) (to_addr ch_addr val : String) (price : CachedServing) (s : Store)
      (cache : Nested CachedServing)
      → get sep (id_text cur ∷ to_addr ∷ ch_addr ∷ []) s ≡ ok val
      → decode val ≡ ok price
      → IsStored cache s
      → IsStored (set_channel cur to_addr ch_addr price cache) s
  set_channel-IsStored cur to_addr ch_addr val price s cache g d h c p k v e =
      let there = lookup-set_channel cur to_addr ch_addr c p k price cache in
      let first = nat_eq_iff cur c in
      let second = text_key.beq_iff to_addr p in
      let third = text_key.beq_iff ch_addr k in
      elim (Bool-cases (nat_eq cur c && (to_addr == p) && (ch_addr == k))) [
        | inr f ↦ h c p k v (rw (there, f) at e)
        | inl t ↦
            let samec : cur ≡ c = ground arith in
            let samep : to_addr ≡ p = ground arith in
            let samek : ch_addr ≡ k = ground arith in
            let same : some price ≡ some v = rw (there, t) at e in
            let value : price ≡ v =
              ap (λ (x : Option CachedServing). elim x [ none ↦ price | some y ↦ y ]) same in
            rw (← samec, ← samep, ← samek, ← value, ← d)
              (get-triples sep decode (id_text cur) to_addr ch_addr s g)
      ]

  set_peer-IsStored :
      (cur : ℕ) (to_addr : String) (s : Store) (cache : Nested CachedServing)
      → IsStored cache s
      → IsStored (set_peer cur to_addr [] cache) s
  set_peer-IsStored cur to_addr s cache h c p k v e =
      let there = peer_map-set_peer cur to_addr c p [] cache in
      elim (Bool-cases (nat_eq cur c && (to_addr == p))) [
        | inr f ↦ h c p k v (rw (there, f) at e)
        | inl t ↦ let gone : none ≡ some v = rw (there, t) at e in absurd (ground arith)
      ]

  insert-IsStored :
      (cur : ℕ) (s : Store) (cache : Nested CachedServing)
      → IsStored cache s
      → IsStored (insert cur [] cache) s
  unfolding peer_map
  insert-IsStored cur s cache h c p k v e =
      let there = lookup-insert cur c [] cache in
      elim (Bool-cases (nat_eq cur c)) [
        | inr f ↦ h c p k v (rw (there, f) at e)
        | inl t ↦ let gone : none ≡ some v = rw (there, t) at e in absurd (ground arith)
      ]

  load_servings-IsStored :
      (cur : ℕ) (to_addr : String) (names : Map String Bool) (s : Store)
      (cache : Nested CachedServing) {cache' : Nested CachedServing}
      → load_servings sep id_text atoi decode cur to_addr names s cache ≡ ok cache'
      → IsStored cache s
      → IsStored cache' s
  unfolding load_servings
  load_servings-IsStored cur to_addr [] s cache e h =
      subst (λ (t : Nested CachedServing). IsStored t s) (ok-injective e) h
  load_servings-IsStored cur to_addr ((ch_addr, b) ∷ names) s cache e h =
      let (val, g, e₁) = >>=-eq-ok (get sep (id_text cur ∷ to_addr ∷ ch_addr ∷ []) s) _ e in
      let (price, d, e₂) = >>=-eq-ok (decode val) _ e₁ in
      load_servings-IsStored cur to_addr names s (set_channel cur to_addr ch_addr price cache) e₂
        (set_channel-IsStored cur to_addr ch_addr val price s cache g d h)

  emptied :
      (cur : ℕ) (to_addr : String) (cache : Nested CachedServing)
      → is_empty (peer_map cur to_addr (set_peer cur to_addr [] cache)) ≡ true
  emptied cur to_addr cache =
      let there = peer_map-set_peer cur to_addr cur to_addr [] cache in
      let first = nat_eq_iff cur cur in
      let second = text_key.beq_iff to_addr to_addr in
      let self : nat_eq cur cur && (to_addr == to_addr) ≡ true = ground arith in rw (there, self)

  load_recipient-IsStored :
      (cur : ℕ) (to_addr : String) (m : PaychServingManager) {m' : PaychServingManager}
      → load_recipient sep id_text atoi decode cur to_addr m ≡ ok m'
      → IsStored m.cache m.ds
      → IsStored m'.cache m'.ds
  unfolding load_recipient
  load_recipient-IsStored cur to_addr m e h =
      let entered = set_peer cur to_addr [] m.cache in
      let start = set_peer-IsStored cur to_addr m.ds m.cache h in
      let (channels, f, e₁) = >>=-eq-ok (get_children sep (id_text cur ∷ to_addr ∷ []) m.ds) _ e in
      elim (Bool-cases (is_empty channels)) [
        | inl t ↦
            let (ds', g, e₂) =
              >>=-eq-ok (delete sep (id_text cur ∷ to_addr ∷ []) m.ds) _ (rw t at e₁) in
            subst (λ (x : PaychServingManager). IsStored x.cache x.ds) (ok-injective e₂)
              (λ c p k v q.
                triples-delete_above sep decode (id_text cur) to_addr (id_text c) p k m.ds g
                ∙ start c p k v (
                    sym (delete_peer-keeps cur to_addr c p k entered (emptied cur to_addr m.cache))
                    ∙ q))
        | inr t ↦
            let (cache', g, e₂) =
              >>=-eq-ok (load_servings sep id_text atoi decode cur to_addr channels m.ds entered) _
                (rw t at e₁) in
            subst (λ (x : PaychServingManager). IsStored x.cache x.ds) (ok-injective e₂)
              (load_servings-IsStored cur to_addr channels m.ds entered g start)
      ]

  load_recipients-IsStored :
      (cur : ℕ) (names : Map String Bool) (m : PaychServingManager) {m' : PaychServingManager}
      → load_recipients sep id_text atoi decode cur names m ≡ ok m'
      → IsStored m.cache m.ds
      → IsStored m'.cache m'.ds
  unfolding load_recipients
  load_recipients-IsStored cur [] m e h =
      subst (λ (x : PaychServingManager). IsStored x.cache x.ds) (ok-injective e) h
  load_recipients-IsStored cur ((to_addr, b) ∷ names) m e h =
      let (t, f, e₁) = >>=-eq-ok (load_recipient sep id_text atoi decode cur to_addr m) _ e in
      load_recipients-IsStored cur names t e₁ (load_recipient-IsStored cur to_addr m f h)

  load_currencies-IsStored :
      (names : Map String Bool) (m : PaychServingManager) {m' : PaychServingManager}
      → load_currencies sep id_text atoi decode names m ≡ ok m'
      → IsStored m.cache m.ds
      → IsStored m'.cache m'.ds
  unfolding load_currencies
  load_currencies-IsStored [] m e h =
      subst (λ (x : PaychServingManager). IsStored x.cache x.ds) (ok-injective e) h
  load_currencies-IsStored ((text, b) ∷ names) m e h =
      let (i, f, e₁) = >>=-eq-ok (atoi text) _ e in
      let cur = to_byte i in
      let (recipients, f₁, e₂) = >>=-eq-ok (get_children sep (id_text cur ∷ []) m.ds) _ e₁ in
      let m₁ : PaychServingManager = record { cache = insert cur [] m.cache; ds = m.ds } in
      let (t, f₂, e₃) =
        >>=-eq-ok (load_recipients sep id_text atoi decode cur recipients m₁) _ e₂ in
      load_currencies-IsStored names t e₃
        (load_recipients-IsStored cur recipients m₁ f₂ (insert-IsStored cur m.ds m.cache h))

  -- After a start that succeeds, each price that Inspect shows is the one that the store holds.
  pub load-IsStored :
      (s : Store) {m : PaychServingManager} (c : ℕ) (p k : String) (v : CachedServing)
      → load sep id_text atoi decode s ≡ ok m
      → inspect c p k m ≡ some v
      → triples sep decode m.ds (id_text c) p k ≡ some (ok v)
  unfolding load peer_map
  load-IsStored s {m} c p k v e i =
      let (currencies, f, e₁) = >>=-eq-ok (get_children sep [] s) _ e in
      load_currencies-IsStored currencies (record { cache = []; ds = s }) e₁
        (λ c' p' k' v' q. absurd (ground arith)) c p k v (sym (inspect-peer_map c p k m) ∙ i)
