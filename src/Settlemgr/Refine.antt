-- ===== src/Settlemgr/Refine.antt =====
-- The settlement manager of settlemgr/settlemgr_impl.go against a function from currencies and senders to
-- durations, in which the default of a currency stands under the default policy's id.
use fcr.Mdlstore.{path_key, Store, get_ds_key, has, get}
use fcr.Base.{
  if◌then◌else◌, String, Option, Result, ◌==◌, ◌&&◌, some, ok, none, List, [], ◌∷◌, err, ◌≡◌, ap,
  ◌∙◌, Bool, >>=-eq-ok, fail_if, sym, ok-injective, false, Option-cases, inr, inl, text_key,
}
use fcr.Paymgr.Types.{Time}
use fcr.Settlemgr.{
  set_default_policy, set_sender_policy, remove_default_policy, remove_sender_policy,
  get_sender_policy,
}
use fcr.Policies.{default_policy_id}
use fcr.Mdlstore.Pairs.{pairs-put, pairs-delete, pairs}
use fcr.Policies.Target.{remove_existing-deletes}
use fcr.Policies.History.{AllOf, run}
use fcr.Base.Map.{lookup}

pub data Op : Type 0 where
  sets_default : String → Time → Op
  sets_sender : String → String → Time → Op
  removes_default : String → Store → Op
  removes_sender : String → String → Store → Op

abbrev Durations : Type 0
Durations = String → String → Option (Result Time)

-- A function, changed at one currency and name.
abbrev set_duration : String → String → Option (Result Time) → Durations → Durations
set_duration cur name v f c a = if (cur == c) && (name == a) then v else f c a

-- Where an operation changes the function, and what it puts there.
abbrev place : Op → String × String × Option (Result Time)
place (sets_default cur d) = (cur, default_policy_id, some (ok d))
place (sets_sender cur from_addr d) = (cur, from_addr, some (ok d))
place (removes_default cur seen) = (cur, default_policy_id, none)
place (removes_sender cur from_addr seen) = (cur, from_addr, none)

abbrev pub durations : List Op → Durations → Durations
durations [] f = f
durations (op ∷ ops) f = durations ops (set_duration (place op).0 (place op).1 (place op).2 f)

-- The sender's own duration, or the default, with the datastore's error where there is neither.
abbrev pub settled : Durations → String → String → Result Time
settled f cur from_addr = elim (f cur from_addr) [
  | some r ↦ r
  | none ↦ elim (f cur default_policy_id) [ none ↦ err "datastore: key not found" | some r ↦ r ]
]

durations_cong :
    (ops : List Op) (f g : Durations)
    → ((c a : String) → f c a ≡ g c a)
    → (c a : String) → durations ops f c a ≡ durations ops g c a
durations_cong [] f g e c a = e c a
durations_cong (op ∷ ops) f g e c a =
    durations_cong ops (set_duration (place op).0 (place op).1 (place op).2 f)
      (set_duration (place op).0 (place op).1 (place op).2 g)
      (λ c' a'.
        ap
          (λ (x : Option (Result Time)).
            if ((place op).0 == c') && ((place op).1 == a') then (place op).2 else x)
          (e c' a'))
      c a

settled_cong :
    (f g : Durations) (cur from_addr : String)
    → f cur from_addr ≡ g cur from_addr
    → f cur default_policy_id ≡ g cur default_policy_id
    → settled f cur from_addr ≡ settled g cur from_addr
settled_cong f g cur from_addr own def =
    ap
      (λ (x : Option (Result Time)). elim x [
        | some r ↦ r
        | none ↦ elim (f cur default_policy_id) [
          | none ↦ err "datastore: key not found"
          | some r ↦ r
        ]
      ])
      own
    ∙ ap
        (λ (y : Option (Result Time)). elim (g cur from_addr) [
          | some r ↦ r
          | none ↦ elim y [ none ↦ err "datastore: key not found" | some r ↦ r ]
        ])
        def

module _ (sep : String → Bool) (duration_string : Time → String)
    (parse_duration : String → Result Time) where
  unfoldable pub run_op : Op → Store → Result Store
  run_op (sets_default cur d) s = set_default_policy sep duration_string parse_duration cur d s
  run_op (sets_sender cur from_addr d) s =
      set_sender_policy sep duration_string parse_duration cur from_addr d s
  run_op (removes_default cur seen) s = remove_default_policy sep cur seen s
  run_op (removes_sender cur from_addr seen) s = remove_sender_policy sep cur from_addr seen s

  -- ParseDuration reads back what String writes for a duration.
  abbrev pub OpReadsBack : Op → Type 0
  OpReadsBack (sets_default cur d) = parse_duration (duration_string d) ≡ ok d
  OpReadsBack (sets_sender cur from_addr d) = parse_duration (duration_string d) ≡ ok d
  OpReadsBack (removes_default cur seen) = Unit {0}
  OpReadsBack (removes_sender cur from_addr seen) = Unit {0}

  abbrev pub durations_of : Store → Durations
  durations_of s = pairs sep parse_duration s

  step :
      (op : Op) (s s' : Store) (c a : String)
      → OpReadsBack op
      → run_op op s ≡ ok s'
      → durations_of s' c a
        ≡ set_duration (place op).0 (place op).1 (place op).2 (durations_of s) c a
  unfolding run_op set_default_policy set_sender_policy remove_sender_policy
  step (sets_default cur d) s s' c a r e =
      rw (← r) (pairs-put sep parse_duration (duration_string d) cur default_policy_id c a s e)
  step (sets_sender cur from_addr d) s s' c a r e =
      let (u, f, g) =
        >>=-eq-ok (fail_if (from_addr == default_policy_id) "fromAddr cannot be default policy id")
          _ e in
      rw (← r) (pairs-put sep parse_duration (duration_string d) cur from_addr c a s g)
  step (removes_default cur seen) s s' c a r e =
      pairs-delete sep parse_duration cur default_policy_id c a s (
        remove_existing-deletes sep "default policy does not exist" (cur ∷ default_policy_id ∷ [])
          seen s e)
  step (removes_sender cur from_addr seen) s s' c a r e =
      let (u, f, g) =
        >>=-eq-ok (fail_if (from_addr == default_policy_id) "fromAddr cannot be default policy id")
          _ e in
      pairs-delete sep parse_duration cur from_addr c a s
        (remove_existing-deletes sep "policy does not exist" (cur ∷ from_addr ∷ []) seen s g)

  run-durations :
      (ops : List Op) (s : Store) {s' : Store} (c a : String)
      → AllOf OpReadsBack ops
      → run run_op ops s ≡ ok s'
      → durations_of s' c a ≡ durations ops (durations_of s) c a
  run-durations [] s c a r e = ap (λ (t : Store). durations_of t c a) (sym (ok-injective e))
  run-durations (op ∷ ops) s c a (r, rs) e =
      let (t, f, g) = >>=-eq-ok (run_op op s) _ e in
      run-durations ops t c a rs g
      ∙ durations_cong ops (durations_of t)
          (set_duration (place op).0 (place op).1 (place op).2 (durations_of s))
          (λ c' a'. step op s t c' a' r f) c a

  get-settled :
      (cur from_addr : String) (s : Store)
      → from_addr == default_policy_id ≡ false
      → get_ds_key sep (cur ∷ from_addr ∷ []) ≡ ok (cur ∷ from_addr ∷ [])
      → get_ds_key sep (cur ∷ default_policy_id ∷ []) ≡ ok (cur ∷ default_policy_id ∷ [])
      → get_sender_policy sep duration_string parse_duration cur from_addr s
        ≡ settled (durations_of s) cur from_addr
  unfolding get_sender_policy has get
  get-settled cur from_addr s ne key key' = elim (Option-cases (lookup (cur ∷ from_addr ∷ []) s)) [
    | inr (n, e) ↦
        let own : durations_of s cur from_addr ≡ some (parse_duration n.node_data) = rw e in
        let found : settled (durations_of s) cur from_addr ≡ parse_duration n.node_data =
          rw (settled, own) in
        rw found (rw (ne, key, e, key, e))
    | inl e ↦ elim (Option-cases (lookup (cur ∷ default_policy_id ∷ []) s)) [
      | inr (n, f) ↦
          let own : durations_of s cur from_addr ≡ none = rw e in
          let def : durations_of s cur default_policy_id ≡ some (parse_duration n.node_data) =
            rw f in
          let found : settled (durations_of s) cur from_addr ≡ parse_duration n.node_data =
            rw (settled, own, def) in
          rw found (rw (ne, key, e, key', f))
      | inl f ↦
          let own : durations_of s cur from_addr ≡ none = rw e in
          let def : durations_of s cur default_policy_id ≡ none = rw f in
          let gone : settled (durations_of s) cur from_addr ≡ err "datastore: key not found" =
            rw (settled, own, def) in
          rw gone (rw (ne, key, e, key', f))
    ]
  ]

  -- GetSenderPolicy after any sequence of operations that succeed: the duration that the last operation
  -- on the sender gave it, or that the store held before, and where there is none that of the default. It
  -- is stated for a sender that is not the default policy's id, paths without a separator, and durations
  -- that ParseDuration reads back.
  pub get_sender_policy_refines :
      (ops : List Op) (s : Store) {s' : Store} (cur from_addr : String)
      → AllOf OpReadsBack ops
      → run run_op ops s ≡ ok s'
      → from_addr == default_policy_id ≡ false
      → get_ds_key sep (cur ∷ from_addr ∷ []) ≡ ok (cur ∷ from_addr ∷ [])
      → get_ds_key sep (cur ∷ default_policy_id ∷ []) ≡ ok (cur ∷ default_policy_id ∷ [])
      → get_sender_policy sep duration_string parse_duration cur from_addr s'
        ≡ settled (durations ops (durations_of s)) cur from_addr
  get_sender_policy_refines ops s {s'} cur from_addr fine e ne key key' =
      get-settled cur from_addr s' ne key key'
      ∙ settled_cong (durations_of s') (durations ops (durations_of s)) cur from_addr
          (run-durations ops s cur from_addr fine e)
          (run-durations ops s cur default_policy_id fine e)
