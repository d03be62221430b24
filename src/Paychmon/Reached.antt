-- ===== src/Paychmon/Reached.antt =====
-- What every step of paychmon/ keeps, and so every state that it reaches has.
use mathlib.Core.Path.{subst}
use fcr.Paychmon.Steps.{
  Step, Reach, here, next, tracks, starts_renewal, starts_retirement, hands_over, wakes,
  queues_removal, retires_channel, forgets, runs_op, new,
}
use fcr.Base.{if_some-eq, String, Bool, ℕ, Result, >>=-eq-ok, ok-injective, some-injective, arith}
use fcr.Paymgr.Types.{Time}
use fcr.Paychmon.{Monitor, run_op, find_control, take_at, renew, retire, react, wake}
use fcr.Paychmon.Matched.{
  IsMatched, hand_over-IsMatched, change_routine-IsMatched, wake-place, queue_removal-IsMatched,
  retire_channel-IsMatched,
}
use fcr.Paychmon.Invariant.{track-IsMatched, forget-IsMatched}
use fcr.Mdlstore.{Store}
use fcr.Paychmon.Cache.{routine_at}

pub Step-IsMatched :
    (sep : String → Bool) (flag_text : Bool → String) (id_text : ℕ → String)
    (encode : Time → Time → Result String) {m m' : Monitor}
    → Step sep flag_text id_text encode m m'
    → IsMatched m
    → IsMatched m'
unfolding renew retire run_op
Step-IsMatched sep ft it enc {m} (tracks check p settlement seen free e) h =
    track-IsMatched check p settlement seen m e h
Step-IsMatched sep ft it enc {m} (starts_renewal p settlement seen free e) h =
    let (first, f, e₁) = >>=-eq-ok (find_control p seen.cache) _ e in
    let (id, g, e₂) = >>=-eq-ok (find_control p m.cache) _ e₁ in
    subst (λ x. IsMatched x) (ok-injective e₂)
      (record { cached = h.cached; runs = h.runs; known = h.known })
Step-IsMatched sep ft it enc {m} (starts_retirement p free e) h =
    let (id, g, e₂) = >>=-eq-ok (find_control p m.cache) _ e in
    subst (λ x. IsMatched x) (ok-injective e₂)
      (record { cached = h.cached; runs = h.runs; known = h.known })
Step-IsMatched sep ft it enc {m} (hands_over i e) h = hand_over-IsMatched i m e h
Step-IsMatched sep ft it enc {m} (wakes id ev e) h =
    change_routine-IsMatched id (react ev) m (λ r r' k. wake-place ev r k) (unfold wake in e) h
Step-IsMatched sep ft it enc {m} (queues_removal id e) h = queue_removal-IsMatched id m e h
Step-IsMatched sep ft it enc {m} (retires_channel id e) h = retire_channel-IsMatched id m e h
Step-IsMatched sep ft it enc {m} (forgets id e) h = forget-IsMatched id m e h
Step-IsMatched sep ft it enc {m} (runs_op i now e) h =
    let (t, q, e₁) = if_some-eq (take_at i m.pending) _ e in
    subst (λ x. IsMatched x) (some-injective e₁)
      (record { cached = h.cached; runs = h.runs; known = h.known })

-- In every state that the monitor reaches from its start on an empty datastore, a channel is in the cache
-- exactly when a routine for it still runs: the number in the cache is that of a routine at the channel that
-- is not finished, and each routine that is not finished is the one that the cache names at its channel.
pub Reach-IsMatched :
    (sep : String → Bool) (flag_text : Bool → String) (id_text : ℕ → String)
    (encode : Time → Time → Result String) (s : Store) {m : Monitor}
    → Reach sep flag_text id_text encode (new s) m
    → IsMatched m
unfolding routine_at
Reach-IsMatched sep ft it enc s here = record {
  cached = λ p j f. absurd (ground arith);
  runs = λ j r f live. absurd (ground arith);
  known = λ j r f. absurd (ground arith);
}
Reach-IsMatched sep ft it enc s (next r st) =
    Step-IsMatched sep ft it enc st (Reach-IsMatched sep ft it enc s r)
