-- ===== src/Renewmgr/Refine.antt =====
-- The renew manager of renewmgr/renewmgr_impl.go against a function from places to durations.
use fcr.Mdlstore.{path_key, Store, put}
use fcr.Base.{
  String, Bool, false, some, ok, none, Option, Result, ◌≡◌, ◌∷◌, [], List, ◌==◌, ◌∙◌, text_key,
  ◌>>=◌,
}
use fcr.Paymgr.Types.{Time}
use fcr.Policies.Target.{
  currency, entry, Target, IsTarget, path_of, not_default_id-ok, remove_existing-deletes,
}
use fcr.Policies.History.{Change, AllOf, start-replay, run, replay}
use fcr.Policies.{default_policy_id, not_default_id, clean_store}
use fcr.Renewmgr.{
  set_default_policy, set_sender_policy, set_paych_policy, remove_default_policy,
  remove_sender_policy, remove_paych_policy, get_paych_policy,
}
use fcr.Policies.Refine.{
  policies-put, policies-delete, policies-remove, AreKeys, first_of-effective, effective_cong,
  policies, update, effective,
}

pub data Op : Type 0 where
  sets_default : String → Time → Op
  sets_sender : String → String → Time → Op
  sets_paych : String → String → String → Time → Op
  removes_default : String → Store → Op
  removes_sender : String → String → Store → Op
  removes_paych : String → String → String → Store → Op

abbrev pub change : Op → Change Time
change (sets_default cur d) = (currency cur, some (ok d))
change (sets_sender cur from_addr d) = (entry cur from_addr default_policy_id, some (ok d))
change (sets_paych cur from_addr ch d) = (entry cur from_addr ch, some (ok d))
change (removes_default cur seen) = (currency cur, none)
change (removes_sender cur from_addr seen) = (entry cur from_addr default_policy_id, none)
change (removes_paych cur from_addr ch seen) = (entry cur from_addr ch, none)

module _ (sep : String → Bool) (duration_string : Time → String)
    (parse_duration : String → Result Time) where
  unfoldable pub run_op : Op → Store → Result Store
  run_op (sets_default cur d) s = set_default_policy sep duration_string cur d s
  run_op (sets_sender cur from_addr d) s = set_sender_policy sep duration_string cur from_addr d s
  run_op (sets_paych cur from_addr ch d) s =
      set_paych_policy sep duration_string cur from_addr ch d s
  run_op (removes_default cur seen) s = remove_default_policy sep cur seen s
  run_op (removes_sender cur from_addr seen) s =
      remove_sender_policy sep cur from_addr seen (λ t. t) s
  run_op (removes_paych cur from_addr ch seen) s =
      remove_paych_policy sep cur from_addr ch seen (λ t. t) s

  -- ParseDuration reads back what String writes for a duration.
  abbrev pub ReadsBack : Time → Type 0
  ReadsBack d = parse_duration (duration_string d) ≡ ok d

  abbrev pub OpReadsBack : Op → Type 0
  OpReadsBack (sets_default cur d) = ReadsBack d
  OpReadsBack (sets_sender cur from_addr d) = ReadsBack d
  OpReadsBack (sets_paych cur from_addr ch d) = ReadsBack d
  OpReadsBack (removes_default cur seen) = Unit {0}
  OpReadsBack (removes_sender cur from_addr seen) = Unit {0}
  OpReadsBack (removes_paych cur from_addr ch seen) = Unit {0}

  durations : Store → Target → Option (Result Time)
  durations = policies sep parse_duration

  sets :
      (t : Target) (d : Time) (s s' : Store) (u : Target)
      → IsTarget t
      → IsTarget u
      → ReadsBack d
      → put sep (duration_string d) (path_of t) s ≡ ok s'
      → durations s' u ≡ update (durations s) t (some (ok d)) u
  unfolding durations
  sets t d s s' u h k r e =
      let there = policies-put sep parse_duration (duration_string d) t s u h k e in rw (← r) there

  step :
      (op : Op) (s s' : Store) (u : Target)
      → IsTarget u
      → OpReadsBack op
      → run_op op s ≡ ok s'
      → durations s' u ≡ update (durations s) (change op).0 (change op).1 u
  unfolding run_op durations set_default_policy set_sender_policy set_paych_policy
      remove_default_policy remove_sender_policy remove_paych_policy
  step (sets_default cur d) s s' u k r e = sets (currency cur) d s s' u tt k r e
  step (sets_sender cur from_addr d) s s' u k r e =
      let (f, g) = not_default_id-ok from_addr _ e in
      sets (entry cur from_addr default_policy_id) d s s' u f k r g
  step (sets_paych cur from_addr ch d) s s' u k r e =
      let (f, g) = not_default_id-ok from_addr _ e in
      let (f', g') = not_default_id-ok ch _ g in sets (entry cur from_addr ch) d s s' u f k r g'
  step (removes_default cur seen) s s' u k r e =
      let missing : String = "default policy does not exist" in
      let path = cur ∷ default_policy_id ∷ [] in
      policies-delete sep parse_duration (currency cur) s u tt k
        (remove_existing-deletes sep missing path seen s e)
  step (removes_sender cur from_addr seen) s s' u k r e =
      let (f, g) = not_default_id-ok from_addr _ e in
      policies-remove sep parse_duration _ cur from_addr default_policy_id seen s u f k g
  step (removes_paych cur from_addr ch seen) s s' u k r e =
      let (f, g) = not_default_id-ok from_addr _ e in
      let (f', g') = not_default_id-ok ch _ g in
      policies-remove sep parse_duration _ cur from_addr ch seen s u f k g'

  -- GetPaychPolicy after the clean-up at the start and any sequence of operations that succeed:
  -- the duration of the first of the channel, the sender and the currency to which the last
  -- operation gave one, or which the store held before. It is stated for addresses that are not
  -- the default policy's id, paths without a separator, and durations that ParseDuration reads
  -- back.
  pub get_paych_policy_refines :
      (ops : List Op) (s : Store) {s' : Store} (cur from_addr ch : String)
      → AllOf OpReadsBack ops
      → (clean_store sep s >>= run run_op ops) ≡ ok s'
      → from_addr == default_policy_id ≡ false
      → ch == default_policy_id ≡ false
      → AreKeys sep parse_duration
          (entry cur from_addr ch ∷ entry cur from_addr default_policy_id ∷ currency cur ∷ [])
      → get_paych_policy sep parse_duration cur from_addr ch s'
        ≡ effective sep parse_duration
            (entry cur from_addr ch)
            (entry cur from_addr default_policy_id ∷ currency cur ∷ [])
            (replay change ops (policies sep parse_duration s))
  unfolding get_paych_policy not_default_id durations
  get_paych_policy_refines ops s {s'} cur from_addr ch fine e f g keys =
      let agree = start-replay sep parse_duration run_op change OpReadsBack step ops s fine e in
      let own = agree (entry cur from_addr ch) f in
      let sender = agree (entry cur from_addr default_policy_id) f in
      let def = agree (currency cur) tt in
      let read =
        first_of-effective sep parse_duration (entry cur from_addr ch)
          (entry cur from_addr default_policy_id ∷ currency cur ∷ []) s' keys in
      rw (f, g)
        (read
          ∙ effective_cong sep parse_duration (entry cur from_addr ch)
              (entry cur from_addr default_policy_id ∷ currency cur ∷ [])
              (policies sep parse_duration s') (replay change ops (policies sep parse_duration s))
              (own, (sender, (def, tt))))
