-- ===== src/Paychmon/Cache.antt =====
-- The three levels of the cache of paychmon/paychmon_impl.go, read and written at a place.
use fcr.Base.Key.{bool_key, bool_eq_iff}
use fcr.Base.{if◌then◌else◌, nat_key, text_key, ◌≡◌, ◌↔◌}
use fcr.Base.{Option, ℕ, ◌≡◌, true, ◌↔◌, arith, nat_eq_iff, text_key, ok, some, none, nat_key}
use fcr.Base.Nested.{or_empty}
use fcr.Base.Map.{is_some, lookup-insert, lookup-erase, lookup, insert, erase}
use fcr.Paychmon.{Place, Cache, same_place, find_control, set_control, delete_control, exists}

unfoldable pub routine_at : Place → Cache → Option ℕ
routine_at p m = lookup p.ch_addr (or_empty (lookup p.currency_id (or_empty (lookup p.outbound m))))

pub same_place_iff : (p q : Place) → (same_place p q ≡ true) ↔ (p ≡ q)
same_place_iff p q = ground (
  arith,
  bool_eq_iff p.outbound q.outbound,
  nat_eq_iff p.currency_id q.currency_id,
  text_key.beq_iff p.ch_addr q.ch_addr,
)

find_control-routine_at :
    (p : Place) (m : Cache) {id : ℕ} → find_control p m ≡ ok id → routine_at p m ≡ some id
unfolding find_control routine_at
find_control-routine_at p m e = ground arith

pub routine_at-exists : (p : Place) (m : Cache) → exists p m ≡ is_some (routine_at p m)
unfolding find_control routine_at
routine_at-exists p m = ground arith

pub routine_at-set_control :
    (p q : Place) (id : ℕ) (m : Cache)
    → routine_at q (set_control p id m) ≡ (if same_place p q then some id else routine_at q m)
unfolding set_control routine_at
routine_at-set_control p q id m =
    let currencies = or_empty (lookup p.outbound m) in
    let channels = or_empty (lookup p.currency_id currencies) in
    ground (
      arith,
      bool_eq_iff p.outbound q.outbound,
      nat_eq_iff p.currency_id q.currency_id,
      lookup-insert p.outbound q.outbound
          (insert p.currency_id (insert p.ch_addr id channels) currencies) m,
      lookup-insert p.currency_id q.currency_id (insert p.ch_addr id channels) currencies,
      lookup-insert p.ch_addr q.ch_addr id channels,
    )

pub routine_at-delete_control :
    (p q : Place) (m : Cache)
    → routine_at q (delete_control p m) ≡ (if same_place p q then none else routine_at q m)
unfolding delete_control routine_at
routine_at-delete_control p q m =
    let currencies = or_empty (lookup p.outbound m) in
    let channels = or_empty (lookup p.currency_id currencies) in
    ground (
      arith,
      bool_eq_iff p.outbound q.outbound,
      nat_eq_iff p.currency_id q.currency_id,
      text_key.beq_iff p.ch_addr q.ch_addr,
      lookup-insert p.outbound q.outbound
          (insert p.currency_id (erase p.ch_addr channels) currencies) m,
      lookup-insert p.currency_id q.currency_id (erase p.ch_addr channels) currencies,
      lookup-erase p.ch_addr q.ch_addr channels,
    )
