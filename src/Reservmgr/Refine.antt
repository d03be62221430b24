-- ===== src/Reservmgr/Refine.antt =====
-- The reservation manager of reservmgr/reservmgr_impl.go against a function from places to limits.
use fcr.Mdlstore.{path_key, Store, put}
use fcr.Base.{
  String, Bool, true, none, false, some, ok, Option, Result, ◌≡◌, ok-injective, Bool-cases, inl,
  arith, inr, ◌>>=◌, >>=-eq-ok, ◌∷◌, [], List, ◌==◌, ◌∙◌, text_key,
}
use fcr.Base.Int.{ℤ, ltb_ℤ, pos, negsuc}
use fcr.Reservmgr.{
  Limit, set_default_policy, set_paych_policy, set_peer_policy, remove_default_policy,
  remove_paych_policy, remove_peer_policy, encode_limit, decode_limit, get_peer_policy,
}
use fcr.Policies.History.{Change, AllOf, start-replay, run, replay}
use fcr.Policies.{default_policy_id, not_default_id, clean_store}
use fcr.Policies.Target.{
  Target, IsTarget, path_of, currency, entry, not_default_id-ok, remove_existing-deletes,
}
use fcr.Policies.Refine.{
  policies-put, policies, update, policies-delete, policies-remove, AreKeys, first_of-effective,
  effective, effective_cong,
}

pub data Op : Type 0 where
  sets_default : String → Bool → ℤ → Op
  sets_paych : String → String → Bool → ℤ → Op
  sets_peer : String → String → String → Bool → ℤ → Op
  removes_default : String → Store → Op
  removes_paych : String → String → Store → Op
  removes_peer : String → String → String → Store → Op

-- What an unlimited or limited policy reads as.
abbrev limit : Bool → ℤ → Limit
limit true max = (true, none)
limit false max = (false, some max)

abbrev pub change : Op → Change Limit
change (sets_default cur b max) = (currency cur, some (ok (limit b max)))
change (sets_paych cur ch b max) = (entry cur ch default_policy_id, some (ok (limit b max)))
change (sets_peer cur ch peer b max) = (entry cur ch peer, some (ok (limit b max)))
change (removes_default cur seen) = (currency cur, none)
change (removes_paych cur ch seen) = (entry cur ch default_policy_id, none)
change (removes_peer cur ch peer seen) = (entry cur ch peer, none)

module _ (sep : String → Bool) (big_string : ℤ → String) (set_string : String → Option ℤ) where
  unfoldable pub run_op : Op → Store → Result Store
  run_op (sets_default cur b max) s = set_default_policy sep big_string cur b max s
  run_op (sets_paych cur ch b max) s = set_paych_policy sep big_string cur ch b max s
  run_op (sets_peer cur ch peer b max) s = set_peer_policy sep big_string cur ch peer b max s
  run_op (removes_default cur seen) s = remove_default_policy sep cur seen s
  run_op (removes_paych cur ch seen) s = remove_paych_policy sep cur ch seen (λ t. t) s
  run_op (removes_peer cur ch peer seen) s = remove_peer_policy sep cur ch peer seen (λ t. t) s

  -- SetString reads back what String writes for an amount.
  abbrev pub ReadsBack : ℤ → Type 0
  ReadsBack max = set_string (big_string max) ≡ some max

  abbrev pub OpReadsBack : Op → Type 0
  OpReadsBack (sets_default cur b max) = ReadsBack (negsuc 0) × ReadsBack max
  OpReadsBack (sets_paych cur ch b max) = ReadsBack (negsuc 0) × ReadsBack max
  OpReadsBack (sets_peer cur ch peer b max) = ReadsBack (negsuc 0) × ReadsBack max
  OpReadsBack (removes_default cur seen) = Unit {0}
  OpReadsBack (removes_paych cur ch seen) = Unit {0}
  OpReadsBack (removes_peer cur ch peer seen) = Unit {0}

  -- A limit that is written reads as it was set.
  decode-encode :
      (b : Bool) (max : ℤ) {v : String}
      → ReadsBack (negsuc 0) × ReadsBack max
      → encode_limit big_string b max ≡ ok v
      → decode_limit set_string v ≡ ok (limit b max)
  unfolding encode_limit decode_limit
  decode-encode true max (r, s) e = rw (← ok-injective e, decode_limit, r)
  decode-encode false max (r, s) e = elim (Bool-cases (ltb_ℤ max (pos 0))) [
    | inl f ↦ absurd (ground arith)
    | inr f ↦ rw (← ok-injective (rw f at e), decode_limit, s, f)
  ]

  limits : Store → Target → Option (Result Limit)
  limits = policies sep (decode_limit set_string)

  sets :
      (t : Target) (b : Bool) (max : ℤ) (s s' : Store) (u : Target)
      → IsTarget t
      → IsTarget u
      → ReadsBack (negsuc 0) × ReadsBack max
      → (encode_limit big_string b max >>= λ v. put sep v (path_of t) s) ≡ ok s'
      → limits s' u ≡ update (limits s) t (some (ok (limit b max))) u
  unfolding limits
  sets t b max s s' u h k r e =
      let (v, f, g) = >>=-eq-ok (encode_limit big_string b max) _ e in
      let there = policies-put sep (decode_limit set_string) v t s u h k g in
      rw (← decode-encode b max r f) there

  step :
      (op : Op) (s s' : Store) (u : Target)
      → IsTarget u
      → OpReadsBack op
      → run_op op s ≡ ok s'
      → limits s' u ≡ update (limits s) (change op).0 (change op).1 u
  unfolding run_op limits set_default_policy set_paych_policy set_peer_policy remove_default_policy
      remove_paych_policy remove_peer_policy
  step (sets_default cur b max) s s' u k r e = sets (currency cur) b max s s' u tt k r e
  step (sets_paych cur ch b max) s s' u k r e =
      let (f, g) = not_default_id-ok ch _ e in
      sets (entry cur ch default_policy_id) b max s s' u f k r g
  step (sets_peer cur ch peer b max) s s' u k r e =
      let (f, g) = not_default_id-ok ch _ e in
      let (f', g') = not_default_id-ok peer _ g in sets (entry cur ch peer) b max s s' u f k r g'
  step (removes_default cur seen) s s' u k r e =
      let missing : String = "default policy does not exist" in
      let path = cur ∷ default_policy_id ∷ [] in
      policies-delete sep (decode_limit set_string) (currency cur) s u tt k
        (remove_existing-deletes sep missing path seen s e)
  step (removes_paych cur ch seen) s s' u k r e =
      let (f, g) = not_default_id-ok ch _ e in
      policies-remove sep (decode_limit set_string) _ cur ch default_policy_id seen s u f k g
  step (removes_peer cur ch peer seen) s s' u k r e =
      let (f, g) = not_default_id-ok ch _ e in
      let (f', g') = not_default_id-ok peer _ g in
      policies-remove sep (decode_limit set_string) _ cur ch peer seen s u f k g'

  -- GetPeerPolicy after the clean-up at the start and any sequence of operations that succeed:
  -- the policy of the first of the peer, the channel and the currency to which the last operation
  -- gave one, or which the store held before. It is stated for addresses that are not the default
  -- policy's id, paths without a separator, and amounts that SetString reads back.
  pub get_peer_policy_refines :
      (ops : List Op) (s : Store) {s' : Store} (cur ch peer : String)
      → AllOf OpReadsBack ops
      → (clean_store sep s >>= run run_op ops) ≡ ok s'
      → ch == default_policy_id ≡ false
      → peer == default_policy_id ≡ false
      → AreKeys sep
          (decode_limit set_string)
          (entry cur ch peer ∷ entry cur ch default_policy_id ∷ currency cur ∷ [])
      → get_peer_policy sep set_string cur ch peer s'
        ≡ effective sep
            (decode_limit set_string)
            (entry cur ch peer)
            (entry cur ch default_policy_id ∷ currency cur ∷ [])
            (replay change ops (policies sep (decode_limit set_string) s))
  unfolding get_peer_policy not_default_id limits
  get_peer_policy_refines ops s {s'} cur ch peer fine e f g keys =
      let agree =
        start-replay sep (decode_limit set_string) run_op change OpReadsBack step ops s fine e in
      let own = agree (entry cur ch peer) f in
      let paych = agree (entry cur ch default_policy_id) f in
      let def = agree (currency cur) tt in
      let read =
        first_of-effective sep (decode_limit set_string) (entry cur ch peer)
          (entry cur ch default_policy_id ∷ currency cur ∷ []) s' keys in
      rw (f, g)
        (read
          ∙ effective_cong sep (decode_limit set_string) (entry cur ch peer)
              (entry cur ch default_policy_id ∷ currency cur ∷ [])
              (policies sep (decode_limit set_string) s')
              (replay change ops (policies sep (decode_limit set_string) s))
              (own, (paych, (def, tt))))
