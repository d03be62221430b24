-- ===== src/Pservmgr/Agree.antt =====
-- The cache of pservmgr/pservmgr_impl.go against its store, in any order of the transactions of Serve and
-- Stop.
use mathlib.Core.Path.{subst}
use fcr.Pservmgr.{
  PaychServingManager, CachedServing, delete_peer, remove_serving, clean_recipient, is_price,
  inspect, serve,
}
use fcr.Mdlstore.{path_key, put, delete}
use fcr.Base.{
  if◌then◌else◌, ℕ, String, ◌≡◌, Option-cases, inl, inr, true, Bool, Result, ok, panic, err, List,
  [], ◌∷◌, ◌==◌, nat_eq, ◌>>=◌, none, some, >>=-eq-ok, fail_if, not, text_key, nat_key, Bool-cases,
  nat_eq_iff, Option, refl, false, ◌∙◌, sym, Result-cases, ap, ◌&&◌, ok-injective, arith,
}
use fcr.Base.Int.{ℤ}
use fcr.Base.Nested.{
  peer_map, Nested, has_channel, lookup-set_channel, or_empty, set_channel, lookup-delete_channel,
  delete_channel,
}
use fcr.Base.Map.{is_empty, lookup, lookup-insert, lookup-erase, is_empty-eq, erase}
use fcr.Mdlstore.Triples.{triples-put, triples, triples-delete_above, triples-delete}

-- A transaction: of Serve, and the first and the second of Stop. Serve and the first of Stop have looked
-- at the cache before.
pub data Step : Type 0 where
  serves : ℕ → String → String → ℤ → ℤ → PaychServingManager → Step
  removes : ℕ → String → String → PaychServingManager → Step
  cleans : ℕ → String → Step

pub inspect-peer_map :
    (c : ℕ) (p k : String) (m : PaychServingManager)
    → inspect c p k m ≡ lookup k (peer_map c p m.cache)
unfolding inspect peer_map
inspect-peer_map c p k m = elim (Option-cases (lookup c m.cache)) [
  | inl e ↦ rw (inspect, e)
  | inr (peers, e) ↦ elim (Option-cases (lookup p peers)) [
    | inl f ↦ rw (inspect, e, f)
    | inr (channels, f) ↦ rw (inspect, e, f)
  ]
]

-- A recipient without a serving can go.
pub delete_peer-keeps :
    (cur : ℕ) (to_addr : String) (c : ℕ) (p k : String) (m : Nested CachedServing)
    → is_empty (peer_map cur to_addr m) ≡ true
    → lookup k (peer_map c p (delete_peer cur to_addr m)) ≡ lookup k (peer_map c p m)
unfolding delete_peer peer_map
delete_peer-keeps cur to_addr c p k m h = elim (Option-cases (lookup cur m)) [
  | inl e ↦ rw (delete_peer, e)
  | inr (peers, e) ↦
      let there = lookup-insert cur c (erase to_addr peers) m in
      let below = lookup-erase to_addr p peers in
      let gone = is_empty-eq (or_empty (lookup to_addr peers)) (rw e at h) in
      elim (Bool-cases (nat_eq cur c)) [
        | inr t ↦ rw (delete_peer, e, there, t)
        | inl t ↦
            let samec : cur ≡ c = (nat_eq_iff cur c).0 t in
            elim (Bool-cases (to_addr == p)) [
              | inr t' ↦ rw (delete_peer, e, there, t, below, t', ← samec, e)
              | inl t' ↦
                  let samep : to_addr ≡ p = (text_key.beq_iff to_addr p).0 t' in
                  rw (delete_peer, e, there, t, below, t', ← samec, e, ← samep, gone)
            ]
      ]
]

-- What the store should read for a price of the cache.
abbrev pub priced : Option CachedServing → Option (Result CachedServing)
priced none = none
priced (some price) = some (ok price)

priced_if :
    (b : Bool) (x y : Option CachedServing)
    → (if b then priced x else priced y) ≡ priced (if b then x else y)
priced_if true x y = refl
priced_if false x y = refl

module _ (sep : String → Bool) (id_text : ℕ → String) (encode : ℤ → ℤ → Result String) where
  unfoldable pub run_step : Step → PaychServingManager → Result PaychServingManager
  run_step (serves cur to_addr ch_addr ppp period seen) m =
      serve sep id_text encode cur to_addr ch_addr ppp period seen m
  run_step (removes cur to_addr ch_addr seen) m =
      remove_serving sep id_text cur to_addr ch_addr seen m
  run_step (cleans cur to_addr) m = ok (clean_recipient sep id_text cur to_addr m)

  -- A step that fails changes nothing.
  abbrev pub after_step : Step → PaychServingManager → PaychServingManager
  after_step x m = elim (run_step x m) [ panic ↦ m | err e ↦ m | ok m' ↦ m' ]

  abbrev pub after_steps : List Step → PaychServingManager → PaychServingManager
  after_steps [] m = m
  after_steps (x ∷ xs) m = after_steps xs (after_step x m)

  -- What the theorem asks of a step, for the currency `c`: the texts of the two currencies tell them
  -- apart, and the decoder reads back what the encoder writes for the price.
  abbrev pub IsFine : (String → Result CachedServing) → ℕ → Step → Type 0
  IsFine decode c (serves cur to_addr ch_addr ppp period seen) =
      ((id_text cur == id_text c) ≡ nat_eq cur c)
      × ((encode ppp period >>= decode) ≡ ok (ppp, period))
  IsFine decode c (removes cur to_addr ch_addr seen) = (id_text cur == id_text c) ≡ nat_eq cur c
  IsFine decode c (cleans cur to_addr) = Unit {0}

  abbrev pub AreFine : (String → Result CachedServing) → ℕ → List Step → Type 0
  AreFine decode c [] = Unit {0}
  AreFine decode c (x ∷ xs) = IsFine decode c x × AreFine decode c xs

  -- The store has the price that the cache has, and none where the cache has none.
  abbrev pub Agrees :
      (String → Result CachedServing) → PaychServingManager → ℕ → String → String → Type 0
  Agrees decode m c p k = triples sep decode m.ds (id_text c) p k ≡ priced (inspect c p k m)

  clean :
      (decode : String → Result CachedServing) (cur : ℕ) (to_addr : String)
      (m : PaychServingManager) (c : ℕ) (p k : String)
      → Agrees decode m c p k
      → Agrees decode (clean_recipient sep id_text cur to_addr m) c p k
  unfolding clean_recipient
  clean decode cur to_addr m c p k h = elim (Bool-cases (is_empty (peer_map cur to_addr m.cache))) [
    | inr t ↦ rw (clean_recipient, t) h
    | inl t ↦
        let next = clean_recipient sep id_text cur to_addr m in
        let cache : inspect c p k m ≡ inspect c p k next =
          inspect-peer_map c p k m
          ∙ rw (inspect-peer_map c p k next, clean_recipient, t)
              (sym (delete_peer-keeps cur to_addr c p k m.cache t)) in
        let stored : triples sep decode next.ds (id_text c) p k
            ≡ triples sep decode m.ds (id_text c) p k =
          elim (Result-cases (delete sep (id_text cur ∷ to_addr ∷ []) m.ds)) [
            | inr (inl (x, f)) ↦ rw (clean_recipient, t, f)
            | inr (inr f) ↦ rw (clean_recipient, t, f)
            | inl (ds', f) ↦
                rw (clean_recipient, t, f)
                  (triples-delete_above sep decode (id_text cur) to_addr (id_text c) p k m.ds f)
          ] in
        stored ∙ h ∙ ap priced cache
  ]

  step :
      (decode : String → Result CachedServing) (x : Step) (m m' : PaychServingManager) (c : ℕ)
      (p k : String)
      → IsFine decode c x
      → run_step x m ≡ ok m'
      → Agrees decode m c p k
      → Agrees decode m' c p k
  unfolding run_step serve remove_serving clean_recipient
  step decode (serves cur to_addr ch_addr ppp period seen) m m' c p k (same, r) e h =
      let (u, f, e₁) =
        >>=-eq-ok
          (fail_if (not (is_price ppp period))
            "ppp and period must be either both 0 or both positive")
          _ e in
      let (u₁, f₁, e₂) =
        >>=-eq-ok (fail_if (has_channel cur to_addr ch_addr seen.cache) "already in serving") _
          e₁ in
      let (u₂, f₂, e₃) =
        >>=-eq-ok (fail_if (has_channel cur to_addr ch_addr m.cache) "already in serving") _ e₂ in
      let (v, f₃, e₄) = >>=-eq-ok (encode ppp period) _ e₃ in
      let (ds', f₄, e₅) = >>=-eq-ok (put sep v (id_text cur ∷ to_addr ∷ ch_addr ∷ []) m.ds) _ e₄ in
      let there = triples-put sep decode v (id_text cur) to_addr ch_addr (id_text c) p k m.ds f₄ in
      let here = lookup-set_channel cur to_addr ch_addr c p k (ppp, period) m.cache in
      let read : decode v ≡ ok (ppp, period) = rw f₃ at r in
      let next : PaychServingManager = record {
        cache = set_channel cur to_addr ch_addr (ppp, period) m.cache;
        ds = ds';
      } in
      let cond = nat_eq cur c && (to_addr == p) && (ch_addr == k) in
      let stored : triples sep decode ds' (id_text c) p k
          ≡ (if cond then some (ok (ppp, period)) else priced (inspect c p k m)) =
        rw (← same, ← read, ← h) there in
      subst (λ (t : PaychServingManager). Agrees decode t c p k) (ok-injective e₅)
        (stored
          ∙ priced_if cond (some (ppp, period)) (inspect c p k m)
          ∙ ap priced (
              sym (
                inspect-peer_map c p k next
                ∙ here
                ∙ ap (λ (t : Option CachedServing). if cond then some (ppp, period) else t)
                    (sym (inspect-peer_map c p k m)))))
  step decode (removes cur to_addr ch_addr seen) m m' c p k same e h =
      let (u₁, f₁, e₁) =
        >>=-eq-ok (fail_if (not (has_channel cur to_addr ch_addr seen.cache)) "not in serving") _
          e in
      let (u₂, f₂, e₂) =
        >>=-eq-ok (fail_if (not (has_channel cur to_addr ch_addr m.cache)) "not in serving") _ e₁ in
      let (ds', f₃, e₃) = >>=-eq-ok (delete sep (id_text cur ∷ to_addr ∷ ch_addr ∷ []) m.ds) _ e₂ in
      let there = triples-delete sep decode (id_text cur) to_addr ch_addr (id_text c) p k m.ds f₃ in
      let here = lookup-delete_channel cur to_addr ch_addr c p k m.cache in
      let next : PaychServingManager = record {
        cache = delete_channel cur to_addr ch_addr m.cache;
        ds = ds';
      } in
      let cond = nat_eq cur c && (to_addr == p) && (ch_addr == k) in
      let stored : triples sep decode ds' (id_text c) p k
          ≡ (if cond then none else priced (inspect c p k m)) =
        rw (← same, ← h) there in
      subst (λ (t : PaychServingManager). Agrees decode t c p k) (ok-injective e₃)
        (stored
          ∙ priced_if cond none (inspect c p k m)
          ∙ ap priced (
              sym (
                inspect-peer_map c p k next
                ∙ here
                ∙ ap (λ (t : Option CachedServing). if cond then none else t)
                    (sym (inspect-peer_map c p k m)))))
  step decode (cleans cur to_addr) m m' c p k fine e h =
      subst (λ (t : PaychServingManager). Agrees decode t c p k) (ok-injective e)
        (clean decode cur to_addr m c p k h)

  step_any :
      (decode : String → Result CachedServing) (x : Step) (m : PaychServingManager) (c : ℕ)
      (p k : String)
      → IsFine decode c x
      → Agrees decode m c p k
      → Agrees decode (after_step x m) c p k
  step_any decode x m c p k fine h = elim (Result-cases (run_step x m)) [
    | inl (m', e) ↦ rw (after_step, e) (step decode x m m' c p k fine e h)
    | inr (inl (y, e)) ↦ rw (after_step, e) h
    | inr (inr e) ↦ rw (after_step, e) h
  ]

  -- After any sequence of the transactions of Serve and Stop, in any order, whether they succeed or not,
  -- the store holds the price of a channel that Inspect finds, and none where Inspect finds none, if it
  -- was so at the start, the texts of the currencies differ, and the decoder reads back what the encoder
  -- writes for the prices.
  pub after_steps-Agrees :
      (decode : String → Result CachedServing) (xs : List Step) (m : PaychServingManager) (c : ℕ)
      (p k : String)
      → AreFine decode c xs
      → Agrees decode m c p k
      → Agrees decode (after_steps xs m) c p k
  after_steps-Agrees decode [] m c p k fine h = h
  after_steps-Agrees decode (x ∷ xs) m c p k (f, fine) h =
      after_steps-Agrees decode xs (after_step x m) c p k fine (step_any decode x m c p k f h)

  -- Where Serve succeeds, the price is both zero or both positive, and Inspect finds it for the channel;
  -- what it finds for the other channels is as it was.
  pub serve_effect :
      (cur : ℕ) (to_addr ch_addr : String) (ppp period : ℤ) (seen m : PaychServingManager)
      {m' : PaychServingManager} (c : ℕ) (p k : String)
      → serve sep id_text encode cur to_addr ch_addr ppp period seen m ≡ ok m'
      → (is_price ppp period ≡ true)
        × (inspect c p k m' ≡ (
            if nat_eq cur c && (to_addr == p) && (ch_addr == k)
            then some (ppp, period)
            else inspect c p k m))
  unfolding serve
  serve_effect cur to_addr ch_addr ppp period seen m {m'} c p k e =
      let (u, f, e₁) =
        >>=-eq-ok
          (fail_if (not (is_price ppp period))
            "ppp and period must be either both 0 or both positive")
          _ e in
      let (u₁, f₁, e₂) =
        >>=-eq-ok (fail_if (has_channel cur to_addr ch_addr seen.cache) "already in serving") _
          e₁ in
      let (u₂, f₂, e₃) =
        >>=-eq-ok (fail_if (has_channel cur to_addr ch_addr m.cache) "already in serving") _ e₂ in
      let (v, f₃, e₄) = >>=-eq-ok (encode ppp period) _ e₃ in
      let (ds', f₄, e₅) = >>=-eq-ok (put sep v (id_text cur ∷ to_addr ∷ ch_addr ∷ []) m.ds) _ e₄ in
      let here = lookup-set_channel cur to_addr ch_addr c p k (ppp, period) m.cache in
      let next : PaychServingManager = record {
        cache = set_channel cur to_addr ch_addr (ppp, period) m.cache;
        ds = ds';
      } in
      (
        ground (arith, f),
        rw (← ok-injective e₅, inspect-peer_map c p k next, here, inspect-peer_map c p k m),
      )
