-- ===== src/Cservmgr/Refine.antt =====
-- The piece serving manager of cservmgr/cservmgr_impl.go against a function from pieces and currencies to
-- prices.
use fcr.Mdlstore.{path_key, Store, get_ds_key, has, get}
use fcr.Base.{
  if◌then◌else◌, ◌>>=◌, String, Option, ◌==◌, ◌&&◌, some, none, List, [], ◌∷◌, ◌≡◌, ap, Bool,
  Result, ok, >>=-eq-ok, fail_if, arith, ◌∙◌, sym, ok-injective, Option-cases, inl, inr, text_key,
}
use fcr.Base.Int.{ℤ, ltb_ℤ, pos}
use fcr.Mdlstore.Pairs.{pairs-put, decode_pair, pairs-delete, pairs}
use fcr.Policies.Target.{remove_and_prune-effect}
use fcr.Mdlstore.Frame.{OffPath}
use fcr.Cservmgr.{serve, stop, inspect}
use fcr.Base.Map.{lookup}

pub data Op : Type 0 where
  serves : String → String → ℤ → Store → Op
  stops : String → String → Store → Op

-- A function, changed at one piece and currency.
abbrev set_price :
    String → String → Option ℤ → (String → String → Option ℤ) → String → String → Option ℤ
set_price key_hash cur p f k c = if (key_hash == k) && (cur == c) then p else f k c

abbrev pub effect : Op → (String → String → Option ℤ) → String → String → Option ℤ
effect (serves key_hash cur ppb seen) f = set_price key_hash cur (some ppb) f
effect (stops key_hash cur seen) f = set_price key_hash cur none f

abbrev prices : List Op → (String → String → Option ℤ) → String → String → Option ℤ
prices [] f k c = f k c
prices (op ∷ ops) f k c = prices ops (effect op f) k c

prices_cong :
    (ops : List Op) (f g : String → String → Option ℤ)
    → ((k c : String) → f k c ≡ g k c)
    → (k c : String) → prices ops f k c ≡ prices ops g k c
prices_cong [] f g e k c = e k c
prices_cong (serves key_hash cur ppb seen ∷ ops) f g e k c =
    prices_cong ops (set_price key_hash cur (some ppb) f) (set_price key_hash cur (some ppb) g)
      (λ k' c'.
        ap (λ (x : Option ℤ). if (key_hash == k') && (cur == c') then some ppb else x) (e k' c'))
      k c
prices_cong (stops key_hash cur seen ∷ ops) f g e k c =
    prices_cong ops (set_price key_hash cur none f) (set_price key_hash cur none g)
      (λ k' c'.
        ap (λ (x : Option ℤ). if (key_hash == k') && (cur == c') then none else x) (e k' c'))
      k c

module _ (sep : String → Bool) (bytes : ℤ → String) (set_bytes : String → ℤ) where
  unfoldable pub run_op : Op → Store → Result Store
  run_op (serves key_hash cur ppb seen) s = serve sep bytes key_hash cur ppb seen s
  run_op (stops key_hash cur seen) s = stop sep key_hash cur seen (λ t. t) s

  unfoldable pub run_ops : List Op → Store → Result Store
  run_ops [] s = ok s
  run_ops (op ∷ ops) s = do s' ← run_op op s; run_ops ops s'

  -- The prices that a store holds.
  abbrev pub served : Store → String → String → Option ℤ
  served s = pairs sep set_bytes s

  -- SetBytes reads back what Bytes writes for the prices.
  abbrev pub ReadsBack : List Op → Type 0
  ReadsBack [] = Unit {0}
  ReadsBack (serves key_hash cur ppb seen ∷ ops) = (set_bytes (bytes ppb) ≡ ppb) × ReadsBack ops
  ReadsBack (stops key_hash cur seen ∷ ops) = ReadsBack ops

  step_serve :
      (key_hash cur : String) (ppb : ℤ) (seen s s' : Store) (k c : String)
      → set_bytes (bytes ppb) ≡ ppb
      → serve sep bytes key_hash cur ppb seen s ≡ ok s'
      → served s' k c ≡ set_price key_hash cur (some ppb) (served s) k c
  unfolding serve
  step_serve key_hash cur ppb seen s s' k c r e =
      let (u, f, e₁) = >>=-eq-ok (fail_if (ltb_ℤ ppb (pos 0)) "ppb cannot be negative") _ e in
      let (b, f₁, e₂) = >>=-eq-ok (has sep (key_hash ∷ cur ∷ []) seen) _ e₁ in
      let (u₁, f₂, e₃) = >>=-eq-ok (fail_if b "already in serving") _ e₂ in
      let (b', f₃, e₄) = >>=-eq-ok (has sep (key_hash ∷ cur ∷ []) s) _ e₃ in
      let (u₂, f₄, e₅) = >>=-eq-ok (fail_if b' "already in serving") _ e₄ in
      let new = pairs-put sep set_bytes (bytes ppb) key_hash cur k c s e₅ in rw (new, r)

  step_stop :
      (key_hash cur : String) (seen s s' : Store) (k c : String)
      → stop sep key_hash cur seen (λ t. t) s ≡ ok s'
      → served s' k c ≡ set_price key_hash cur none (served s) k c
  unfolding stop
  step_stop key_hash cur seen s s' k c e =
      let (t, d, same) =
        remove_and_prune-effect sep "not in serving" (key_hash ∷ cur ∷ []) (key_hash ∷ []) seen s
          e in
      let off : OffPath sep (k ∷ c ∷ []) [] (key_hash ∷ []) =
        (λ p. ground arith, λ p. ground arith) in
      ap (decode_pair sep set_bytes) (same (k ∷ c ∷ []) off)
      ∙ pairs-delete sep set_bytes key_hash cur k c s d

  run-prices :
      (ops : List Op) (s : Store) {s' : Store} (k c : String)
      → ReadsBack ops
      → run_ops ops s ≡ ok s'
      → served s' k c ≡ prices ops (served s) k c
  unfolding run_ops run_op
  run-prices [] s k c r e = ap (λ (t : Store). served t k c) (sym (ok-injective e))
  run-prices (serves key_hash cur ppb seen ∷ ops) s k c (r, rs) e =
      let (t, f, g) = >>=-eq-ok (serve sep bytes key_hash cur ppb seen s) _ e in
      run-prices ops t k c rs g
      ∙ prices_cong ops (served t) (set_price key_hash cur (some ppb) (served s))
          (λ k' c'. step_serve key_hash cur ppb seen s t k' c' r f) k c
  run-prices (stops key_hash cur seen ∷ ops) s k c r e =
      let (t, f, g) = >>=-eq-ok (stop sep key_hash cur seen (λ t. t) s) _ e in
      run-prices ops t k c r g
      ∙ prices_cong ops (served t) (set_price key_hash cur none (served s))
          (λ k' c'. step_stop key_hash cur seen s t k' c' f) k c

  inspect-served :
      (k c : String) (s : Store)
      → get_ds_key sep (k ∷ c ∷ []) ≡ ok (k ∷ c ∷ [])
      → inspect sep set_bytes k c s ≡ ok (served s k c)
  unfolding inspect has get
  inspect-served k c s key = elim (Option-cases (lookup (k ∷ c ∷ []) s)) [
    | inl e ↦ rw (key, e)
    | inr (n, e) ↦ rw (key, e)
  ]

  -- Inspect after any sequence of calls of Serve and Stop that succeed: the price of the last Serve, or
  -- none after the last Stop, or what the store held before. It is stated for ids without a separator
  -- and prices that SetBytes reads back.
  pub inspect_refines :
      (ops : List Op) (s : Store) {s' : Store} (k c : String)
      → ReadsBack ops
      → run_ops ops s ≡ ok s'
      → get_ds_key sep (k ∷ c ∷ []) ≡ ok (k ∷ c ∷ [])
      → inspect sep set_bytes k c s' ≡ ok (prices ops (served s) k c)
  inspect_refines ops s {s'} k c r e key =
      inspect-served k c s' key ∙ ap ok (run-prices ops s k c r e)
