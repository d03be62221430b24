-- ===== src/Substore/Refine.antt =====
-- The subscriber store of substore/substore_impl.go against a set of subscribers. Nothing comes between
-- the two looks of a call here.
use fcr.Mdlstore.{path_key, Store, has}
use fcr.Base.{
  if◌then◌else◌, ◌>>=◌, String, Bool, ◌==◌, ◌&&◌, true, false, List, [], ◌∷◌, ◌≡◌, ap, Result, ok,
  Bool-cases, inr, inl, text_key, arith, >>=-eq-ok, ok-injective, ◌∙◌, sym,
}
use fcr.Substore.{add_subscriber, remove_subscriber, present}
use fcr.Base.Map.{is_some}
use fcr.Mdlstore.Pairs.{has-pairs, pairs-put, pairs-delete, pairs}

pub data Op : Type 0 where
  adds : String → String → Op
  removes : String → String → Op

-- A set with one element in or out.
abbrev insert_or_erase : Bool → String → String → (String → String → Bool) → String → String → Bool
insert_or_erase b cur addr f c a = if (cur == c) && (addr == a) then b else f c a

-- What an operation does to the set, and the set after a number of operations.
abbrev pub effect : Op → (String → String → Bool) → String → String → Bool
effect (adds cur addr) f = insert_or_erase true cur addr f
effect (removes cur addr) f = insert_or_erase false cur addr f

abbrev subscribers : List Op → (String → String → Bool) → String → String → Bool
subscribers [] f c a = f c a
subscribers (op ∷ ops) f c a = subscribers ops (effect op f) c a

subscribers_cong :
    (ops : List Op) (f g : String → String → Bool)
    → ((c a : String) → f c a ≡ g c a)
    → (c a : String) → subscribers ops f c a ≡ subscribers ops g c a
subscribers_cong [] f g e c a = e c a
subscribers_cong (adds cur addr ∷ ops) f g e c a =
    subscribers_cong ops (effect (adds cur addr) f) (effect (adds cur addr) g)
      (λ c' a'. ap (λ (x : Bool). if (cur == c') && (addr == a') then true else x) (e c' a')) c a
subscribers_cong (removes cur addr ∷ ops) f g e c a =
    subscribers_cong ops (effect (removes cur addr) f) (effect (removes cur addr) g)
      (λ c' a'. ap (λ (x : Bool). if (cur == c') && (addr == a') then false else x) (e c' a')) c a

module _ (sep : String → Bool) where
  unfoldable pub run_op : Op → Store → Result Store
  run_op (adds cur addr) s = add_subscriber sep cur addr s s
  run_op (removes cur addr) s = remove_subscriber sep cur addr s s

  unfoldable pub run_ops : List Op → Store → Result Store
  run_ops [] s = ok s
  run_ops (op ∷ ops) s = do s' ← run_op op s; run_ops ops s'

  -- The subscribers in a store.
  abbrev pub is_subscriber : Store → String → String → Bool
  is_subscriber s cur addr = is_some (pairs sep (λ v. v) s cur addr)

  unchanged :
      (b : Bool) (cur addr : String) (s : Store) (c a : String)
      → is_subscriber s cur addr ≡ b
      → is_subscriber s c a ≡ insert_or_erase b cur addr (is_subscriber s) c a
  unchanged b cur addr s c a h = elim (Bool-cases ((cur == c) && (addr == a))) [
    | inr t ↦ rw t
    | inl t ↦
        let same = text_key.beq_iff cur c in
        let same' = text_key.beq_iff addr a in
        let samec : cur ≡ c = ground arith in
        let samea : addr ≡ a = ground arith in rw (t, ← samec, ← samea) h
  ]

  step :
      (op : Op) (s s' : Store) (c a : String)
      → run_op op s ≡ ok s'
      → is_subscriber s' c a ≡ effect op (is_subscriber s) c a
  unfolding run_op add_subscriber remove_subscriber
  step (adds cur addr) s s' c a e =
      let (b, h, f) = >>=-eq-ok (has sep (cur ∷ addr ∷ []) s) _ e in
      let there = has-pairs sep (λ (v : String). v) cur addr s h in
      elim (Bool-cases b) [
        | inl t ↦
            let same : s ≡ s' = ok-injective (rw t at f) in
            rw (← same) (unchanged true cur addr s c a (there ∙ t))
        | inr t ↦
            let (b', h', f') = >>=-eq-ok (has sep (cur ∷ addr ∷ []) s) _ (rw t at f) in
            let again : b' ≡ b = ok-injective (sym h' ∙ h) in
            let new =
              pairs-put sep (λ (v : String). v) present cur addr c a s (rw (again, t) at f') in
            rw new (elim (Bool-cases ((cur == c) && (addr == a))) [ inl x ↦ rw x | inr x ↦ rw x ])
      ]
  step (removes cur addr) s s' c a e =
      let (b, h, f) = >>=-eq-ok (has sep (cur ∷ addr ∷ []) s) _ e in
      let there = has-pairs sep (λ (v : String). v) cur addr s h in
      elim (Bool-cases b) [
        | inr t ↦
            let same : s ≡ s' = ok-injective (rw t at f) in
            rw (← same) (unchanged false cur addr s c a (there ∙ t))
        | inl t ↦
            let (b', h', f') = >>=-eq-ok (has sep (cur ∷ addr ∷ []) s) _ (rw t at f) in
            let again : b' ≡ b = ok-injective (sym h' ∙ h) in
            let new = pairs-delete sep (λ (v : String). v) cur addr c a s (rw (again, t) at f') in
            rw new (elim (Bool-cases ((cur == c) && (addr == a))) [ inl x ↦ rw x | inr x ↦ rw x ])
      ]

  -- The subscribers in the store after any sequence of operations that succeed are the set that the
  -- operations leave: those that the store had before or that were added, less those that were removed
  -- since.
  pub subscribers_refine :
      (ops : List Op) (s : Store) {s' : Store} (c a : String)
      → run_ops ops s ≡ ok s'
      → is_subscriber s' c a ≡ subscribers ops (is_subscriber s) c a
  unfolding run_ops
  subscribers_refine [] s {s'} c a e =
      ap (λ (t : Store). is_subscriber t c a) (sym (ok-injective e))
  subscribers_refine (op ∷ ops) s {s'} c a e =
      let (t, f, g) = >>=-eq-ok (run_op op s) _ e in
      subscribers_refine ops t c a g
      ∙ subscribers_cong ops (is_subscriber t) (effect op (is_subscriber s))
          (λ c' a'. step op s t c' a' f) c a
