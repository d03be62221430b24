-- ===== src/Policies/History.antt =====
-- Any sequence of operations on a policy store against the same changes to a function.
use fcr.Base.{
  ◌>>=◌, Option, Result, List, [], ◌∷◌, ok, ◌≡◌, refl, String, Bool, ok-injective, >>=-eq-ok, ◌∙◌,
  ap,
}
use fcr.Policies.Target.{Target, IsTarget}
use fcr.Mdlstore.{Store}
use fcr.Policies.Refine.{update, policies, decode_node}
use fcr.Substore.Refine.{run_op}
use fcr.Policies.{clean_store}
use fcr.Policies.Clean.{clean_store-keeps}

-- What an operation does to the function: at one place, a policy or none.
abbrev pub Change : Type 0 → Type 0
Change A = Target × Option (Result A)

abbrev pub replay {ℓ} :
    {Op : Type ℓ} {A : Type 0}
    → (Op → Change A)
    → List Op
    → (Target → Option (Result A))
    → Target
    → Option (Result A)
replay change [] f = f
replay change (op ∷ ops) f = replay change ops (update f (change op).0 (change op).1)

abbrev pub run {ℓ} : {Op : Type ℓ} → (Op → Store → Result Store) → List Op → Store → Result Store
run run_op [] s = ok s
run run_op (op ∷ ops) s = do s' ← run_op op s; run run_op ops s'

abbrev pub AllOf {ℓ} : {Op : Type ℓ} → (Op → Type 0) → List Op → Type 0
AllOf P [] = Unit {0}
AllOf P (op ∷ ops) = P op × AllOf P ops

replay_cong {ℓ} :
    {Op : Type ℓ} {A : Type 0} (change : Op → Change A) (ops : List Op)
    (f g : Target → Option (Result A))
    → ((u : Target) → IsTarget u → f u ≡ g u)
    → (u : Target) → IsTarget u
    → replay change ops f u ≡ replay change ops g u
replay_cong change [] f g same u h = same u h
replay_cong change (op ∷ ops) f g same u h =
    replay_cong change ops (update f (change op).0 (change op).1)
      (update g (change op).0 (change op).1) (λ v k. ap_if v (same v k)) u h
  where
    ap_if :
        (v : Target)
        → f v ≡ g v
        → update f (change op).0 (change op).1 v ≡ update g (change op).0 (change op).1 v
    ap_if v e = rw e refl

module _ (sep : String → Bool) {A : Type 0} (decode : String → Result A) {Op : Type 0}
    (run_op : Op → Store → Result Store) (change : Op → Change A) (IsFine : Op → Type 0)
    (step : (op : Op) (s s' : Store) (u : Target)
      → IsTarget u
      → IsFine op
      → run_op op s ≡ ok s'
      → policies sep decode s' u
        ≡ update (policies sep decode s) (change op).0 (change op).1 u) where
  run-replay :
      (ops : List Op) (s : Store) {s' : Store}
      → AllOf IsFine ops
      → run run_op ops s ≡ ok s'
      → (u : Target) → IsTarget u
      → policies sep decode s' u ≡ replay change ops (policies sep decode s) u
  run-replay [] s {s'} fine e u h = rw (ok-injective e) refl
  run-replay (op ∷ ops) s {s'} (fine, rest) e u h =
      let (t, f, g) = >>=-eq-ok (run_op op s) _ e in
      run-replay ops t rest g u h
      ∙ replay_cong change ops (policies sep decode t)
          (update (policies sep decode s) (change op).0 (change op).1)
          (λ v k. step op s t v k fine f) u h

  -- The same from a start of the manager, with its clean-up.
  pub start-replay :
      (ops : List Op) (s : Store) {s' : Store}
      → AllOf IsFine ops
      → (clean_store sep s >>= run run_op ops) ≡ ok s'
      → (u : Target) → IsTarget u
      → policies sep decode s' u ≡ replay change ops (policies sep decode s) u
  start-replay ops s fine e u h =
      let (t, f, g) = >>=-eq-ok (clean_store sep s) _ e in
      run-replay ops t fine g u h
      ∙ replay_cong change ops (policies sep decode t) (policies sep decode s)
          (λ v k. ap (decode_node sep decode) (clean_store-keeps sep s v k f)) u h
