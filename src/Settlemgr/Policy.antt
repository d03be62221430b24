-- ===== src/Settlemgr/Policy.antt =====
-- What the operations of settlemgr/settlemgr_impl.go promise of the policies they set and remove.
use fcr.Base.{
  String, ◌∷◌, [], ◌≡◌, arith, Bool, List, Result-cases, inl, inr, ok, true, ◌∙◌, Result,
  Bool-cases, ◌==◌, false, text_key, ◌≢◌,
}
use fcr.Mdlstore.{path_key, Store, get, has, put}
use fcr.Mdlstore.Frame.{put_under-key, put_under-writes, put_under-keeps}
use fcr.Base.Map.{lookup}
use fcr.Paymgr.Types.{Time}
use fcr.Settlemgr.{
  set_sender_policy, get_sender_policy, set_default_policy, get_default_policy,
  remove_sender_policy,
}
use fcr.Policies.{default_policy_id}
use fcr.Mdlstore.Removal.{has-local, get-local, delete_effect}
use fcr.Policies.Target.{remove_existing-deletes}

two_parts : (a b c d : String) → (a ∷ b ∷ []) ≡ (c ∷ d ∷ []) → (a ≡ c) × (b ≡ d)
two_parts a b c d e = ground arith

module _ (sep : String → Bool) where
  -- What Put wrote is there and is read back.
  get-put :
      (v x : String) (xs : List String) (s : Store) {s' : Store}
      → put sep v (x ∷ xs) s ≡ ok s'
      → (has sep (x ∷ xs) s' ≡ ok true) × (get sep (x ∷ xs) s' ≡ ok v)
  unfolding put has get
  get-put v x xs s e =
      let k = put_under-key sep v [] (x ∷ xs) s e in
      let w = put_under-writes sep v [] (x ∷ xs) s e in (rw (k, w), rw (k, w))

  put-keeps :
      (v a b c d : String) (s : Store) {s' : Store}
      → put sep v (a ∷ b ∷ []) s ≡ ok s'
      → ((a ∷ b ∷ []) ≢ (c ∷ d ∷ []))
      → lookup (c ∷ d ∷ []) s' ≡ lookup (c ∷ d ∷ []) s
  unfolding put
  put-keeps v a b c d s e ne =
      put_under-keeps sep v [] (a ∷ b ∷ []) s (c ∷ d ∷ []) e
        (λ p. ground arith, (λ p. ground arith, ne))

not_default :
    (a c : String) {x : String}
    → x == default_policy_id ≡ false
    → (a ∷ default_policy_id ∷ []) ≢ (c ∷ x ∷ [])
not_default a c {x} other e =
    let (p, q) = two_parts a default_policy_id c x e in
    let id = text_key.beq_iff x default_policy_id in ground arith

is_default :
    (a c : String) {x : String}
    → x == default_policy_id ≡ false
    → (a ∷ x ∷ []) ≢ (c ∷ default_policy_id ∷ [])
is_default a c {x} other e =
    let (p, q) = two_parts a x c default_policy_id e in
    let id = text_key.beq_iff x default_policy_id in ground arith

module _ (sep : String → Bool) (str : Time → String) (parse : String → Result Time) where
  -- If ParseDuration reads back the text that Duration.String writes for a duration, then after SetSenderPolicy succeeds,
  -- GetSenderPolicy of the sender returns the duration that was set.
  sender_policy_kept :
      (cur from_addr : String) (d : Time) (s : Store) {s' : Store}
      → parse (str d) ≡ ok d
      → set_sender_policy sep str parse cur from_addr d s ≡ ok s'
      → get_sender_policy sep str parse cur from_addr s' ≡ ok d
  unfolding set_sender_policy get_sender_policy
  sender_policy_kept cur from_addr d s back e = elim (Bool-cases (from_addr == default_policy_id)) [
    | inl f ↦ absurd (ground arith)
    | inr f ↦
        let (there, read) = get-put sep (str d) cur (from_addr ∷ []) s (rw f at e) in
        rw (f, there, read) back
  ]

  -- If ParseDuration reads back the text that Duration.String writes for a duration, then after SetDefaultPolicy succeeds,
  -- GetSenderPolicy returns the default that was set for every sender of the currency that has no
  -- policy of its own, whose address is not the default policy's id and has no separator.
  default_policy_serves :
      (cur from_addr : String) (d : Time) (s : Store) {s' : Store}
      → parse (str d) ≡ ok d
      → set_default_policy sep str parse cur d s ≡ ok s'
      → from_addr == default_policy_id ≡ false
      → has sep (cur ∷ from_addr ∷ []) s ≡ ok false
      → get_sender_policy sep str parse cur from_addr s' ≡ ok d
  unfolding set_default_policy get_sender_policy
  default_policy_serves cur from_addr d s {s'} back e other missing =
      let (there, read) = get-put sep (str d) cur (default_policy_id ∷ []) s e in
      let kept =
        put-keeps sep (str d) cur default_policy_id cur from_addr s e (not_default cur cur other) in
      let still = has-local sep (cur ∷ from_addr ∷ []) s' s kept ∙ missing in
      rw (other, still, read) back

  -- If SetSenderPolicy succeeds, then GetSenderPolicy of every other sender, in this currency or
  -- another, and GetDefaultPolicy of every currency return what they did before.
  sender_policy_frame :
      (cur from_addr : String) (d : Time) (s : Store) {s' : Store}
      → set_sender_policy sep str parse cur from_addr d s ≡ ok s'
      → (c a : String) → (cur ∷ from_addr ∷ []) ≢ (c ∷ a ∷ [])
      → (get_sender_policy sep str parse c a s' ≡ get_sender_policy sep str parse c a s)
        × (get_default_policy sep str parse c s' ≡ get_default_policy sep str parse c s)
  unfolding set_sender_policy get_sender_policy get_default_policy
  sender_policy_frame cur from_addr d s {s'} e c a ne =
      elim (Bool-cases (from_addr == default_policy_id)) [
        | inl f ↦ absurd (ground arith)
        | inr f ↦
            let e' = rw f at e in
            let own = put-keeps sep (str d) cur from_addr c a s e' ne in
            let def =
              put-keeps sep (str d) cur from_addr c default_policy_id s e' (is_default cur c f) in
            let there = has-local sep (c ∷ a ∷ []) s' s own in
            let r₁ = get-local sep (c ∷ a ∷ []) s' s own in
            let r₂ = get-local sep (c ∷ default_policy_id ∷ []) s' s def in
            (
              elim (Result-cases (has sep (c ∷ a ∷ []) s)) [
                | inl (true, h) ↦ rw (there, h, r₁)
                | inl (false, h) ↦ rw (there, h, r₂)
                | inr (inl (m, h)) ↦ rw (there, h)
                | inr (inr h) ↦ rw (there, h)
              ],
              rw r₂,
            )
      ]

  -- If RemoveSenderPolicy succeeds, then GetSenderPolicy of the sender returns what GetDefaultPolicy
  -- of the currency returned before the removal.
  removed_policy_falls_back :
      (cur from_addr : String) (seen s : Store) {s' : Store}
      → remove_sender_policy sep cur from_addr seen s ≡ ok s'
      → get_sender_policy sep str parse cur from_addr s' ≡ get_default_policy sep str parse cur s
  unfolding remove_sender_policy get_sender_policy get_default_policy
  removed_policy_falls_back cur from_addr seen s {s'} e =
      elim (Bool-cases (from_addr == default_policy_id)) [
        | inl f ↦ absurd (ground arith)
        | inr f ↦
            let path = cur ∷ from_addr ∷ [] in
            let missing : String = "policy does not exist" in
            let e₀ = remove_existing-deletes sep missing path seen s (rw f at e) in
            let (gone, def) =
              delete_effect sep path s (cur ∷ default_policy_id ∷ []) e₀
                (λ p. ground arith, (λ p. ground arith, is_default cur cur f)) in
            let read = get-local sep (cur ∷ default_policy_id ∷ []) s' s def in rw (f, gone, read)
      ]
